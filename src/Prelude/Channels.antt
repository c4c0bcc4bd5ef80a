-- ===== src/Prelude/Channels.antt =====
-- Go channels with a buffer, and lists of them, as the program's broadcasters keep them. A channel
-- is known by a number that `make` has not given before.
use Prim.Native.Nat.{ℕ, zero, suc, ◌+◌, ◌≤◌}
use mathlib.Core.Path.{◌≡◌, refl, sym, ap, ◌∙◌}
use mathlib.Core.Logic.{inl, inr}
use mathlib.Core.Bool.{Bool}
use mathlib.Core.List.{List, [], ◌∷◌, ◌++◌, map, append-nil, append_assoc}
use native.Mathlib.Omega.{arith}
use open_machine_core.Prelude.Tests.{ltb, ◌==◌, if◌then◌else◌, Bool-cases}
use open_machine_core.Prelude.Lists.{length, length-append, take, take_all}

pub record Channel (E : Type 0) : Type 0 where
  pub number : ℕ
  pub buffer : List E

module _ {E : Type 0} where
  -- select { case c <- event: default: }
  abbrev pub send : ℕ → E → Channel E → Channel E
  send capacity event c =
      if ltb (length c.buffer) capacity then record c { buffer = c.buffer ++ event ∷ [] } else c

  -- Sending events one after the other to one channel.
  unfoldable pub send_all : ℕ → List E → Channel E → Channel E
  send_all capacity [] c = c
  send_all capacity (event ∷ events) c = send_all capacity events (send capacity event c)

  -- the channels without the first that is `ch`, and that one
  unfoldable pub remove : ℕ → List (Channel E) → List (Channel E) × List (Channel E)
  remove ch [] = ([], [])
  remove ch (c ∷ cs) =
      let (rest, found) = remove ch cs in if c.number == ch then (cs, c ∷ []) else (c ∷ rest, found)

  -- how often a channel is in a list
  unfoldable pub occurs : ℕ → List (Channel E) → ℕ
  occurs n [] = 0
  occurs n (c ∷ cs) = (if c.number == n then 1 else 0) + occurs n cs

  pub occurs-append :
      (n : ℕ) (cs ds : List (Channel E)) → occurs n (cs ++ ds) ≡ occurs n cs + occurs n ds
  unfolding occurs
  occurs-append n [] ds = omega arith
  occurs-append n (c ∷ cs) ds = ground (arith, occurs-append n cs ds)

  pub occurs-send :
      (n capacity : ℕ) (event : E) (cs : List (Channel E))
      → occurs n (map (λ c. send capacity event c) cs) ≡ occurs n cs
  unfolding occurs
  occurs-send n capacity event [] = refl
  occurs-send n capacity event (c ∷ cs) = ground (arith, occurs-send n capacity event cs)

  -- Nothing is lost between the remaining and the removed.
  pub occurs-remove :
      (n ch : ℕ) (cs : List (Channel E))
      → occurs n (remove ch cs).0 + occurs n (remove ch cs).1 ≡ occurs n cs
  unfolding occurs remove
  occurs-remove n ch [] = omega arith
  occurs-remove n ch (c ∷ cs) = ground (arith, occurs-remove n ch cs)

  pub take_append_full : (n : ℕ) (xs ys : List E) → n ≤ length xs → take n (xs ++ ys) ≡ take n xs
  take_append_full zero xs ys h = refl
  take_append_full (suc n) [] ys h = absurd (omega arith)
  take_append_full (suc n) (x ∷ xs) ys h =
      ap (λ (r : List E). x ∷ r) (take_append_full n xs ys (omega arith))

  -- A channel that is not read keeps what it held and then the first events, in order, up to its
  -- capacity; the later ones are lost.
  pub send_all-take :
      (capacity : ℕ) (events : List E) (c : Channel E)
      → length c.buffer ≤ capacity
      → (send_all capacity events c).buffer ≡ take capacity (c.buffer ++ events)
  unfolding send_all
  send_all-take capacity [] c h =
      sym
        (ap (λ (r : List E). take capacity r) (append-nil c.buffer) ∙ take_all capacity c.buffer h)
  send_all-take capacity (event ∷ events) c h =
      let choose = λ (b : Bool). if b then record c { buffer = c.buffer ++ event ∷ [] } else c in
      elim (Bool-cases (ltb (length c.buffer) capacity)) [
        | inl e ↦
            ap (λ b. (send_all capacity events (choose b)).buffer) e
            ∙ send_all-take capacity events (record c { buffer = c.buffer ++ event ∷ [] })
                (ground (arith, e, length-append c.buffer (event ∷ [])))
            ∙ ap (λ (r : List E). take capacity r) (append_assoc c.buffer (event ∷ []) events)
        | inr e ↦
            ap (λ b. (send_all capacity events (choose b)).buffer) e
            ∙ send_all-take capacity events c h
            ∙ take_append_full capacity c.buffer events (ground (arith, e))
            ∙ sym (take_append_full capacity c.buffer (event ∷ events) (ground (arith, e)))
      ]

  send-number :
      (capacity : ℕ) (event : E) (c : Channel E) → (send capacity event c).number ≡ c.number
  send-number capacity event c = ground arith

  pub send_all-number :
      (capacity : ℕ) (events : List E) (c : Channel E)
      → (send_all capacity events c).number ≡ c.number
  unfolding send_all
  send_all-number capacity [] c = refl
  send_all-number capacity (event ∷ events) c =
      send_all-number capacity events (send capacity event c) ∙ send-number capacity event c
