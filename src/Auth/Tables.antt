-- ===== src/Auth/Tables.antt =====
-- storage/auth.go: what updates of the tables leave findable.
use open_machine_core.Prelude.{String, List, [], ◌∷◌, ◌≡◌, some, if◌then◌else◌, Uuid, ◌==◌, arith}
use open_machine_core.Auth.{User, get_user_by_username, update_user}

-- A row that is updated is found as before, with its new contents.
pub get_user_by_username-update_user :
    (name : String) (id : Uuid) (f : User → User) (users : List User) (u : User)
    → ((v : User) → (f v).username ≡ v.username)
    → get_user_by_username name users ≡ some u
    → get_user_by_username name (update_user id f users) ≡ some (if u.id == id then f u else u)
unfolding get_user_by_username update_user
get_user_by_username-update_user name id f [] u keep h = cc
get_user_by_username-update_user name id f (v ∷ vs) u keep h =
    ground (arith, get_user_by_username-update_user name id f vs u keep, keep v, h)
