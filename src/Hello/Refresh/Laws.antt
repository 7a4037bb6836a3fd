-- ===== src/Hello/Refresh/Laws.antt =====
-- The caches of tokens as maps from names to tokens that are no more than a day old
-- (src/common/src/idprovider/common.rs).
use himmelblau.Common.{
  ℕ, ◌+◌, ◌≡◌, refl, subst, ap, ◌∙◌, Bool, false, String, Option, none, some, List, [], ◌∷◌, Result,
  ok, err, ltb, if◌then◌else◌, arith, All, any, str_eq, eq_iff, Bool-cases, inl, inr,
}
use himmelblau.Idp.{IdpError}
use himmelblau.Hello.{Device, Entry, Issued, Provider, get, without, insert, ◌>>=◌}
use himmelblau.Hello.Rules.{run-ok}
use himmelblau.Hello.Counter.Laws.{get-without, get-insert}
use himmelblau.Hello.Refresh.{
  RefreshCacheEntry, remove_all, expired, purge, cached, cached_token, add,
}

-- A hash map has one entry for each key.
abbrev pub Distinct : {V : Type 0} → List (Entry V) → Type 0
Distinct [] = Unit
Distinct (e ∷ es) = All (λ d. str_eq d.account e.account ≡ false) es × Distinct es

module _ {V : Type 0} where
  abbrev pub is_old : ℕ → Issued V → Bool
  is_old now v = ltb (v.iat + 86400) now

  -- The names of the entries that are too old.
  abbrev stale : ℕ → List (Entry (Issued V)) → List String
  stale now [] = []
  stale now (e ∷ es) =
      let rest = stale now es in if is_old now e.value then e.account ∷ rest else rest

  -- What is there and not too old.
  abbrev pub fresh : ℕ → Option (Issued V) → Option (Issued V)
  fresh now none = none
  fresh now (some v) = if is_old now v then none else some v

  get-remove_all :
      (k : String) (ks : List String) (es : List (Entry (Issued V)))
      → get k (remove_all ks es) ≡ (if any (λ j. str_eq j k) ks then none else get k es)
  unfolding remove_all
  get-remove_all k [] es = refl
  get-remove_all k (j ∷ js) es =
      ground (arith, get-remove_all k js (without j es), get-without j k es)

  not_stale :
      (now : ℕ) (k : String) (es : List (Entry (Issued V)))
      → All (λ d. str_eq d.account k ≡ false) es
      → any (λ j. str_eq j k) (stale now es) ≡ false
  not_stale now k [] h = refl
  not_stale now k (e ∷ es) h = ground (arith, not_stale now k es h.1)

  not_there :
      (k : String) (es : List (Entry (Issued V)))
      → All (λ d. str_eq d.account k ≡ false) es
      → get k es ≡ none
  unfolding get
  not_there k [] h = refl
  not_there k (e ∷ es) h = ground (arith, not_there k es h.1)

  get-purged :
      (now : ℕ) (k : String) (es : List (Entry (Issued V)))
      → Distinct es
      → (if any (λ j. str_eq j k) (stale now es) then none else get k es) ≡ fresh now (get k es)
  unfolding get
  get-purged now k [] d = refl
  get-purged now k (e ∷ es) d = elim (Bool-cases (str_eq e.account k)) [
    | inl same ↦
        let others = not_stale now k es (
          subst (λ j. All (λ x. str_eq x.account j ≡ false) es) ((eq_iff e.account k).0 same)
            d.0) in
        ground arith
    | inr differs ↦ ground (arith, get-purged now k es d.1)
  ]

module _ {W X : Type 0} (device : Device W X) where
  -- The clock reads the same throughout.
  abbrev pub Frozen : ℕ → Type 0
  Frozen now = (w : W) → (device.now w).0 ≡ now

  abbrev set_world : Provider W X → W → Provider W X
  set_world s w = record s { world = w }

  expired_run :
      {V : Type 0} (now : ℕ) (es : List (Entry (Issued V))) (s : Provider W X)
      → Frozen now
      → (w : W) × (expired device es s ≡ (ok (stale now es), set_world s w))
  unfolding expired ◌>>=◌
  expired_run now [] s frozen = (s.world, refl)
  expired_run now (e ∷ es) s frozen =
      let (w, rest) = expired_run now es (set_world s (device.now s.world).1) frozen in
      (w, ground (arith, frozen s.world))

  abbrev purged : ℕ → Provider W X → W → Provider W X
  purged now s w = record s {
    refresh_cache = remove_all (stale now s.refresh_cache) s.refresh_cache;
    refresh_token_cache = remove_all (stale now s.refresh_token_cache) s.refresh_token_cache;
    world = w;
  }

  purge_run :
      (now : ℕ) (s : Provider W X)
      → Frozen now
      → (w : W) × (purge device s ≡ (ok tt, purged now s w))
  unfolding purge ◌>>=◌
  purge_run now s frozen =
      let (v, first) = expired_run now s.refresh_cache s frozen in
      let (w, second) =
        expired_run now s.refresh_token_cache
          (record s {
            refresh_cache = remove_all (stale now s.refresh_cache) s.refresh_cache;
            world = v;
          })
          frozen in
      (w, ground (arith, first, second))

  -- The two caches as one map: a PRT, or else a refresh token, or else an error.
  abbrev pub held :
      Option (Issued X) → Option (Issued String) → Result (RefreshCacheEntry X) IdpError
  held (some e) o = ok (RefreshCacheEntry.prt e.token)
  held none (some e) = ok (RefreshCacheEntry.refresh_token e.token)
  held none none = err (IdpError.not_found "account_id" "refresh_cache")

  cached-held :
      (p : Option (Issued X)) (o : Option (Issued String)) (s : Provider W X)
      → (cached device p o s).0 ≡ held p o
  unfolding ◌>>=◌
  cached-held (some e) o s = refl
  cached-held none (some e) s = refl
  cached-held none none s = refl

  -- With a clock that reads the same throughout, the answer for an account is its PRT that is no more
  -- than a day old, or else its refresh token that is no more than a day old, or else an error,
  -- whatever the case in which the account's name is spelled.
  pub cached_token_lem :
      (now : ℕ) (account_id : String) (s : Provider W X)
      → Frozen now
      → Distinct s.refresh_cache
      → Distinct s.refresh_token_cache
      → (cached_token device account_id s).0
        ≡ held
            (fresh now (get (device.to_lowercase account_id) s.refresh_cache))
            (fresh now (get (device.to_lowercase account_id) s.refresh_token_cache))
  unfolding cached_token ◌>>=◌
  cached_token_lem now account_id s frozen d f =
      let name = device.to_lowercase account_id in
      let (w, run) = purge_run now s frozen in
      let prts =
        get-remove_all name (stale now s.refresh_cache) s.refresh_cache
        ∙ get-purged now name s.refresh_cache d in
      let tokens =
        get-remove_all name (stale now s.refresh_token_cache) s.refresh_token_cache
        ∙ get-purged now name s.refresh_token_cache f in
      ap (λ p. p.0) (run-ok (purge device) _ s tt (purged now s w) run)
      ∙ cached-held _ _ (purged now s w)
      ∙ ap
          (λ o.
            held o (get name (remove_all (stale now s.refresh_token_cache) s.refresh_token_cache)))
          prts
      ∙ ap (held (fresh now (get name s.refresh_cache))) tokens

module _ {V : Type 0} where
  without-All :
      (P : Entry V → Type 0) (k : String) (es : List (Entry V)) → All P es → All P (without k es)
  unfolding without
  without-All P k [] h = tt
  without-All P k (e ∷ es) h = ground (arith, without-All P k es h.1)

  without-others :
      (k : String) (es : List (Entry V)) → All (λ d. str_eq d.account k ≡ false) (without k es)
  unfolding without
  without-others k [] = tt
  without-others k (e ∷ es) = ground (arith, without-others k es)

  without-Distinct : (k : String) (es : List (Entry V)) → Distinct es → Distinct (without k es)
  unfolding without
  without-Distinct k [] d = tt
  without-Distinct k (e ∷ es) d = ground (
    arith,
    without-All (λ x. str_eq x.account e.account ≡ false) k es d.0,
    without-Distinct k es d.1,
  )

  pub insert-Distinct :
      (k : String) (v : V) (es : List (Entry V)) → Distinct es → Distinct (insert k v es)
  insert-Distinct k v es d = (without-others k es, without-Distinct k es d)

module _ {W X : Type 0} (device : Device W X) where
  -- A PRT that was added is the answer of the same moment, under every spelling of the account's name
  -- that is the same in lower case, whatever was cached before.
  pub cached_token-add :
      (now : ℕ) (account_id other : String) (prt : X) (s : Provider W X)
      → Frozen device now
      → Distinct s.refresh_cache
      → Distinct s.refresh_token_cache
      → device.to_lowercase other ≡ device.to_lowercase account_id
      → (cached_token device other (add device account_id (RefreshCacheEntry.prt prt) s).1).0
        ≡ ok (RefreshCacheEntry.prt prt)
  unfolding add ◌>>=◌
  cached_token-add now account_id other prt s frozen d f same =
      let name = device.to_lowercase account_id in
      let issued : Issued X = record { token = prt; iat = (device.now s.world).0 } in
      let found = get-insert name (device.to_lowercase other) issued s.refresh_cache in
      cached_token_lem device now other (add device account_id (RefreshCacheEntry.prt prt) s).1
        frozen (insert-Distinct name issued s.refresh_cache d) f
      ∙ ground (arith, found, frozen s.world, eq_iff name (device.to_lowercase other))
