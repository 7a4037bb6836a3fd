-- ===== src/Oidc/Codec.antt =====
-- The decoder for the orchestrator's responses, `OrchestratorCodec`
-- (src/common/src/idprovider/openidconnect.rs). The buffer is the list of its bytes; `from_slice` is
-- serde_json's.
use himmelblau.Common.{
  ℕ, ◌*◌, ◌≤◌, ◌≡◌, refl, ◌⊎◌, inl, inr, Option, none, some, List, [], Result, ok, err, ltb,
  if◌then◌else◌, length, arith,
}
use himmelblau.Oidc.{OrchestratorResponse}

abbrev max_orchestrator_response_bytes : ℕ
max_orchestrator_response_bytes = 384 * 1024

-- What reading JSON comes to: a value, an end of the input that is too early, or another error.
pub data Parsed : Type 0 where
  value : OrchestratorResponse → Parsed
  eof : Parsed
  malformed : Parsed

-- The result and the buffer that is left.
abbrev pub Decoded : Type 0
Decoded = Result (Option OrchestratorResponse) (Unit {0}) × List ℕ

abbrev decoded : Parsed → List ℕ → Decoded
decoded (value message) src = (ok (some message), [])
decoded eof src = (ok none, src)
decoded malformed src = (err tt, [])

unfoldable pub decode : (List ℕ → Parsed) → List ℕ → Decoded
decode from_slice src =
    if ltb max_orchestrator_response_bytes (length src)
    then (err tt, [])
    else decoded (from_slice src) src

decoded-cases :
    (p : Parsed) (src : List ℕ)
    → length src ≤ 393216
    → ((decoded p src).1 ≡ [])
      ⊎ ((decoded p src ≡ (ok none, src)) × (p ≡ eof) × (length src ≤ 393216))
decoded-cases (value message) src h = inl refl
decoded-cases eof src h = inr (refl, refl, h)
decoded-cases malformed src h = inl refl

-- The decoder keeps nothing of a response that it read, of one that it could not read, or of one that
-- is longer than 384 KiB; it keeps the whole of one that goes on, and that is not longer than this.
pub decode_lem :
    (from_slice : List ℕ → Parsed) (src : List ℕ)
    → ((decode from_slice src).1 ≡ [])
      ⊎ ((decode from_slice src ≡ (ok none, src)) × (from_slice src ≡ eof) × (length src ≤ 393216))
unfolding decode
decode_lem from_slice src = ground (arith, decoded-cases (from_slice src) src)
