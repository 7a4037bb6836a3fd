-- ===== src/Orchestrator/Session/Log.antt =====
-- How much a session logs (src/orchestrator/src/session.rs): no more entries than the bound, and no
-- entry longer than its bound.
use himmelblau.Common.{
  ℕ, ◌+◌, ◌<◌, ◌≤◌, ◌≡◌, refl, ap, ◌⊎◌, inl, inr, Bool-cases, List, [], ◌∷◌, ◌++◌, ltb, leb, arith,
  utf8_len, byte_len, length, length-append, All, All-append,
}
use himmelblau.Orchestrator.Session.{
  Session, SessionLogEntry, LogLevel, max_session_log_entries, max_session_log_message_bytes,
  truncated_log_suffix, push_chars, truncate_log_message, push_log, log,
}

byte_len-append : (xs ys : List ℕ) → byte_len (xs ++ ys) ≡ byte_len xs + byte_len ys
unfolding byte_len
byte_len-append [] ys = omega arith
byte_len-append (x ∷ xs) ys = omega (arith, byte_len-append xs ys)

suffix_bytes : byte_len truncated_log_suffix ≡ 14
unfolding byte_len
suffix_bytes = refl

utf8_len-le : (c : ℕ) → utf8_len c ≤ 4
unfolding utf8_len
utf8_len-le c = ground arith

push_chars-le : (n : ℕ) (cs : List ℕ) → n ≤ 498 → n + byte_len (push_chars n cs) ≤ 498
unfolding push_chars byte_len
push_chars-le n [] h = omega arith
push_chars-le n (c ∷ cs) h = ground (arith, push_chars-le (n + utf8_len c) cs, suffix_bytes)

push_chars-ge :
    (n : ℕ) (cs : List ℕ) → n ≤ 498 → 498 < n + byte_len cs → 495 ≤ n + byte_len (push_chars n cs)
unfolding push_chars byte_len
push_chars-ge n [] h k = omega (arith, h, k)
push_chars-ge n (c ∷ cs) h k =
    ground (arith, push_chars-ge (n + utf8_len c) cs, suffix_bytes, utf8_len-le c)

push_chars-prefix : (n : ℕ) (cs : List ℕ) → (rest : List ℕ) × (cs ≡ push_chars n cs ++ rest)
unfolding push_chars
push_chars-prefix n [] = ([], refl)
push_chars-prefix n (c ∷ cs) =
    let (rest, e) = push_chars-prefix (n + utf8_len c) cs in
    elim (Bool-cases
      (ltb max_session_log_message_bytes (n + utf8_len c + byte_len truncated_log_suffix))) [
        | inl full ↦ (c ∷ cs, ground arith)
        | inr fits ↦ (rest, ground (arith, ap (λ l. c ∷ l) e))
      ]

-- A message of up to 512 bytes is logged as it is. Of a longer one a beginning is kept, cut between two
-- characters, with the suffix after it: no more than 512 bytes, and no fewer than 509.
pub truncate_log_message_lem :
    (message : List ℕ)
    → ((byte_len message ≤ 512) × (truncate_log_message message ≡ message))
      ⊎ ((kept : List ℕ) × (rest : List ℕ) × (message ≡ kept ++ rest)
          × (truncate_log_message message ≡ kept ++ truncated_log_suffix)
          × (509 ≤ byte_len (truncate_log_message message))
          × (byte_len (truncate_log_message message) ≤ 512))
unfolding truncate_log_message
truncate_log_message_lem message =
    let (rest, e) = push_chars-prefix 0 message in
    elim (Bool-cases (leb (byte_len message) max_session_log_message_bytes)) [
      | inl short ↦ inl (ground arith)
      | inr long ↦ inr (
        push_chars 0 message,
        rest,
        e,
        ground arith,
        ground (
          arith,
          push_chars-ge 0 message,
          byte_len-append (push_chars 0 message) truncated_log_suffix,
          suffix_bytes,
        ),
        ground (
          arith,
          push_chars-le 0 message,
          byte_len-append (push_chars 0 message) truncated_log_suffix,
          suffix_bytes,
        ),
      )
    ]

-- The bounds of the log.
abbrev pub Short : SessionLogEntry → Type 0
Short e = byte_len e.message ≤ max_session_log_message_bytes

abbrev pub Bounded : Session → Type 0
Bounded s = (length s.runtime.logs ≤ max_session_log_entries) × All Short s.runtime.logs

truncate-le : (message : List ℕ) → byte_len (truncate_log_message message) ≤ 512
truncate-le message = ground (arith, truncate_log_message_lem message)

push_log-Bounded :
    (e : SessionLogEntry) (logs : List SessionLogEntry)
    → Short e
    → length logs ≤ max_session_log_entries
    → All Short logs
    → (length (push_log e logs) ≤ max_session_log_entries) × All Short (push_log e logs)
unfolding push_log
push_log-Bounded e [] h l a = ground arith
push_log-Bounded e (x ∷ logs) h l a = ground (
  arith,
  length-append logs (e ∷ []),
  length-append (x ∷ logs) (e ∷ []),
  All-append Short logs (e ∷ []) a.1 (h, tt),
  All-append Short (x ∷ logs) (e ∷ []) a (h, tt),
)

pub log-Bounded :
    (now epoch : ℕ) (level : LogLevel) (message : List ℕ) (s : Session)
    → Bounded s
    → Bounded (log now epoch level message s)
unfolding log
log-Bounded now epoch level message s b =
    push_log-Bounded _ s.runtime.logs (truncate-le message) b.0 b.1
