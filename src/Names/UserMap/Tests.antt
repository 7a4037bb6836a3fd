-- ===== src/Names/UserMap/Tests.antt =====
-- Runs of the map of local users (src/common/src/user_map.rs), and the theorem on it.
use himmelblau.Common.{ℕ, ◌≡◌, ◌↔◌, refl, Option, some, List, [], ◌∷◌, codes}
use himmelblau.Names.UserMap.{
  UserMap, get_upn_from_local, get_local_from_upn, get_id_overrides, read,
}
use himmelblau.Names.UserMap.Inverse.{read-inverse}

-- The second line of a local user, and a line of a name that is taken, do not count.
abbrev file : Option (List (List ℕ))
file = some (
    codes "# users"
    ∷ codes " joe : joe@example.org "
    ∷ codes "joe:other@example.org"
    ∷ codes "ann:joe@example.org"
    ∷ codes "eve"
    ∷ [])

abbrev users : UserMap
users = read (λ s. s) file

joe : get_upn_from_local users (codes "joe") ≡ some (codes "joe@example.org")
unfolding get_upn_from_local read
joe = refl

joe_alone : get_id_overrides users ≡ codes "joe" ∷ []
unfolding get_id_overrides read
joe_alone = refl

read-inverse_example :
    (get_upn_from_local users (codes "joe") ≡ some (codes "joe@example.org"))
    ↔ (get_local_from_upn users (codes "joe@example.org") ≡ some (codes "joe"))
read-inverse_example = read-inverse (λ s. s) file (codes "joe") (codes "joe@example.org")
