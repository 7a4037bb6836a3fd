-- ===== src/Hello/Online/Laws.antt =====
-- When a provider is online, and that only then it gives access tokens
-- (src/common/src/idprovider/common.rs).
use himmelblau.Common.{
  ℕ, ◌+◌, ◌<◌, ◌≡◌, refl, Bool, true, false, Option, Result, ok, err, leb, is_ok, ◌&&◌, Bool-cases,
  arith, if◌then◌else◌,
}
use himmelblau.Idp.{IdpError, CacheState}
use himmelblau.Hello.{
  Config, Device, Provider, Act, continue, pure, fail, outside, or_fail, ◌>>=◌, ◌>>◌,
}
use himmelblau.Hello.Online.{
  attempt_online, check_online, check_state, break_glass_ttl, offline_break_glass, require_online,
}

abbrev pub is_online : CacheState → Bool
is_online CacheState.online = true
is_online CacheState.offline = false
is_online (CacheState.offline_next_check at_time) = false

module _ {W X : Type 0} (device : Device W X) where
  attempt_online-state :
      (now : ℕ) (s : Provider W X)
      → (attempt_online device now s).0 ≡ ok (is_online (attempt_online device now s).1.state)
  unfolding attempt_online ◌>>=◌
  attempt_online-state now s = ground (arith, Bool-cases (device.probe s.world).0)

  check_state-state :
      (now : ℕ) (state : CacheState) (s : Provider W X)
      → s.state ≡ state
      → (check_state device now state s).0 ≡ ok (is_online (check_state device now state s).1.state)
  unfolding ◌>>=◌
  check_state-state now CacheState.online s e = ground arith
  check_state-state now CacheState.offline s e = ground arith
  check_state-state now (CacheState.offline_next_check at_time) s e =
      ground (arith, attempt_online-state now s, Bool-cases (leb at_time now))

  -- The check always answers, and answers whether the provider's state then is online.
  pub check_online-state :
      (now : ℕ) (s : Provider W X)
      → (check_online device now s).0 ≡ ok (is_online (check_online device now s).1.state)
  unfolding check_online ◌>>=◌
  check_online-state now s = check_state-state now s.state s refl

  -- Where break glass is enabled, then from there on until its time is over no check asks the server:
  -- each answers that the provider is offline, and changes nothing.
  pub offline_break_glass-check_online :
      (config : Config) (ttl : Option ℕ) (now : ℕ) (s : Provider W X)
      → config.offline_breakglass_enabled ≡ true
      → now < (device.now s.world).0 + break_glass_ttl device config ttl
      → (let t = (offline_break_glass device config ttl s).1 in
          check_online device now t ≡ (ok false, t))
  unfolding offline_break_glass check_online ◌>>=◌
  offline_break_glass-check_online config ttl now s enabled before = ground arith

  abbrev gate : Bool → Act W X (Unit {0})
  gate online = if online then pure tt else fail IdpError.bad_request

  gate_lem :
      (r : Result Bool IdpError) (t : Provider W X)
      → r ≡ ok (is_online t.state)
      → (continue r gate t).0
        ≡ (if is_online (continue r gate t).1.state then ok tt else err IdpError.bad_request)
  unfolding ◌>>=◌
  gate_lem (ok b) t e = ground arith
  gate_lem (err x) t e = ground arith

  after_init_lem :
      (init : Result (Unit {0}) (Unit {0})) (s : Provider W X)
      → (let p =
            (do
              or_fail IdpError.bad_request init
              now ← outside device.now
              online ← check_online device now
              gate online)
              s in
          p.0 ≡ (if is_ok init && is_online p.1.state then ok tt else err IdpError.bad_request))
  unfolding ◌>>=◌
  after_init_lem (ok u) s =
      let (now, w) = device.now s.world in
      let t = record s { world = w } in
      let (r, v) = check_online device now t in gate_lem r v (check_online-state now t)
  after_init_lem (err u) s = refl

  -- What needs the network goes on exactly where the provider could be initialised and the check then
  -- says that it is online; it ends with `BadRequest` otherwise.
  pub require_online_lem :
      (s : Provider W X)
      → (require_online device s).0 ≡ (
          if is_ok (device.delayed_init s.world).0 && is_online (require_online device s).1.state
          then ok tt
          else err IdpError.bad_request)
  unfolding require_online ◌>>=◌
  require_online_lem s =
      let (init, w) = device.delayed_init s.world in after_init_lem init (record s { world = w })
