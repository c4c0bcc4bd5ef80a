-- ===== src/Auth/Lockout.antt =====
-- service.go: five wrong passwords in a row lock an account.
use open_machine_core.Prelude.{
  ℕ, ◌+◌, ◌<◌, String, List, [], ◌∷◌, ◌≡◌, ◌≢◌, refl, ap, ◌∙◌, subst, Bool, true, false, Option,
  none, some, if◌then◌else◌, ==_refl, arith, ◌⊎◌, inl, inr, length, All,
}
use open_machine_core.Auth.{
  User, Store, AuthEnv, AuthError, invalid_credentials, account_locked, Tokens, lock_time,
  failed_once, get_user_by_username, increment_failed_login_attempts, login_user, verified,
  unlocked, login_found,
}
use open_machine_core.Auth.Tables.{get_user_by_username-update_user}

module _ (env : AuthEnv) (name : String) (random : String ⊎ String) where
  -- a password that the account does not accept
  abbrev pub IsWrong : User → String → Type 0
  IsWrong u password = env.verify_password password u.password_hash ≢ inr true

  -- logging in at each time with each password
  unfoldable pub login_all : List (ℕ × String) → Store → Store
  login_all [] s = s
  login_all ((now, password) ∷ attempts) s =
      login_all attempts (login_user env now name password random s).0

  verified_wrong :
      (now : ℕ) (u : User) (r : String ⊎ Bool) (s : Store)
      → r ≢ inr true
      → verified env now u r random s
        ≡ (increment_failed_login_attempts now u.id s, inl invalid_credentials)
  verified_wrong now u (inl e) s h = refl
  verified_wrong now u (inr false) s h = refl
  verified_wrong now u (inr true) s h = absurd (h refl)

  login_user_fails :
      (now : ℕ) (password : String) (u : User) (s : Store)
      → get_user_by_username name s.users ≡ some u
      → u.locked_until ≡ none
      → IsWrong u password
      → login_user env now name password random s
        ≡ (increment_failed_login_attempts now u.id s, inl invalid_credentials)
  unfolding login_user
  login_user_fails now password u s found open_ wrong =
      ap (λ (o : Option User). login_found env now o password random s) found
      ∙ ap (λ (l : Option ℕ). unlocked env now u l password random s) open_
      ∙ verified_wrong now u (env.verify_password password u.password_hash) s wrong

  -- A wrong password is counted.
  login_user_wrong :
      (now : ℕ) (password : String) (u : User) (s : Store)
      → get_user_by_username name s.users ≡ some u
      → u.locked_until ≡ none
      → IsWrong u password
      → get_user_by_username name (login_user env now name password random s).0.users
        ≡ some (failed_once now u)
  unfolding increment_failed_login_attempts
  login_user_wrong now password u s found open_ wrong =
      ap (λ (r : Store × (AuthError ⊎ Tokens)). get_user_by_username name r.0.users)
        (login_user_fails now password u s found open_ wrong)
      ∙ get_user_by_username-update_user name u.id (λ v. failed_once now v) s.users u (λ v. refl)
          found
      ∙ ap (λ (b : Bool). some (if b then failed_once now u else u)) (==_refl u.id)

  -- Some wrong passwords, too few to lock: all are counted.
  login_all_wrong :
      (attempts : List (ℕ × String)) (u : User) (s : Store)
      → get_user_by_username name s.users ≡ some u
      → u.locked_until ≡ none
      → u.failed_login_attempts + length attempts < 5
      → All (λ (a : ℕ × String). IsWrong u a.1) attempts
      → (u' : User) × (get_user_by_username name (login_all attempts s).users ≡ some u')
        × (u'.locked_until ≡ none)
        × (u'.failed_login_attempts ≡ u.failed_login_attempts + length attempts)
        × (u'.password_hash ≡ u.password_hash)
  unfolding login_all
  login_all_wrong [] u s found open_ few wrong = (u, found, open_, omega arith, refl)
  login_all_wrong ((now, password) ∷ attempts) u s found open_ few wrong =
      let r =
        login_all_wrong attempts (failed_once now u) (login_user env now name password random s).0
          (login_user_wrong now password u s found open_ wrong.0) (ground (arith, few, open_))
          (omega (arith, few)) wrong.1 in
      (r.0, r.1, r.2, omega (arith, r.3), r.4)

  login_user_locked :
      (now until : ℕ) (password : String) (u : User) (s : Store)
      → get_user_by_username name s.users ≡ some u
      → u.locked_until ≡ some until
      → now < until
      → login_user env now name password random s ≡ (s, inl (account_locked until))
  unfolding login_user
  login_user_locked now until password u s found locked early =
      rw (found, locked) (ground (arith, early))

  -- After four wrong passwords on an account without failed attempts and a fifth wrong one, every
  -- login within 15 minutes of the fifth is refused, the right password included, and changes
  -- nothing.
  pub login_user-login_all :
      (attempts : List (ℕ × String)) (now later : ℕ) (fifth password : String) (u : User)
      (s : Store)
      → get_user_by_username name s.users ≡ some u
      → u.locked_until ≡ none
      → u.failed_login_attempts ≡ 0
      → length attempts ≡ 4
      → All (λ (a : ℕ × String). IsWrong u a.1) attempts
      → IsWrong u fifth
      → later < now + lock_time
      → let s' = (login_user env now name fifth random (login_all attempts s)).0 in
        login_user env later name password random s' ≡ (s', inl (account_locked (now + lock_time)))
  login_user-login_all attempts now later fifth password u s found open_ none_yet four wrong
        wrong_too early =
      let r = login_all_wrong attempts u s found open_ (omega (arith, none_yet, four)) wrong in
      let wrong' =
        λ (h : _). wrong_too (subst (λ p. env.verify_password fifth p ≡ inr true) r.4 h) in
      let at_fifth = login_user_wrong now fifth r.0 (login_all attempts s) r.1 r.2 wrong' in
      login_user_locked later (now + lock_time) password (failed_once now r.0)
        (login_user env now name fifth random (login_all attempts s)).0 at_fifth
        (ground (arith, r.3, none_yet, four)) early
