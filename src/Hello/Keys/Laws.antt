-- ===== src/Hello/Keys/Laws.antt =====
-- The key store answers with what was written last, and one tag's rows leave the others' alone.
use Prim.Native.String.{◌++◌ as append}
use text.Mathlib.TextLemmas.{append_cancel_left}
use himmelblau.Common.{
  ◌≡◌, ◌≢◌, false, String, none, some, List, [], ◌∷◌, arith, str_eq, if◌then◌else◌, ne→str_eq,
  eq_iff,
}
use himmelblau.Hello.{KeyRow}
use himmelblau.Hello.Keys.{select, delete, replace}

module _ {X : Type 0} where
  pub select-delete :
      (tag other : String) (rs : List (KeyRow X))
      → select other (delete tag rs) ≡ (if str_eq tag other then none else select other rs)
  unfolding select delete
  select-delete tag other [] = ground arith
  select-delete tag other (r ∷ rs) =
      ground
        (arith, select-delete tag other rs, eq_iff r.key tag, eq_iff r.key other, eq_iff tag other)

  pub select-replace :
      (tag other : String) (key : X) (rs : List (KeyRow X))
      → select other (replace tag key rs) ≡ (if str_eq tag other then some key else select other rs)
  unfolding select replace
  select-replace tag other key rs = ground (arith, select-delete tag other rs)

-- Tags of one account for different kinds of key differ.
pub other_kind :
    (account kind other : String)
    → kind ≢ other
    → str_eq (append account kind) (append account other) ≡ false
other_kind account kind other ne = ne→str_eq _ _ (λ e. ne (append_cancel_left account kind other e))
