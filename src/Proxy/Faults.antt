-- ===== src/Proxy/Faults.antt =====
-- Messages of the client and of the pool that make the proxy panic, in open/stratum-proxy/src/translation.rs.
use native.Mathlib.Nat.{pow-suc, mod-eq_of_lt}
use bic_os.Base.{
  ℕ, zero, suc, ◌+◌, ◌/◌, ◌%◌, ◌^◌, ◌<◌, ◌≤◌, ◌≡◌, ◌≢◌, refl, ap, true, inl, inr, false, ◌||◌, none,
  some, List, [], ◌∷◌, ◌==◌, ltb, arith, length, length-append, Bool-cases, lt→ltb,
}
use bic_os.Stratum.Messages.{OpenStandardMiningChannel, SubmitSharesStandard}
use bic_os.Proxy.{
  Translation, Notify, Env, Reply, ok, err, panic, or_fail, missing_extra_nonce1, Phase, long_text,
  short_text, capacity_overflow,
}
use bic_os.Proxy.Text.{digits, decimal, first_32, ascii}
use bic_os.Proxy.Channel.{
  channel, slice, reject_shares, coin_base_capacity, with_capacity, calculate_merkle_root,
  perform_notify,
}
use bic_os.Proxy.Logic.{Ensures, bind, bind_logged, panicking, if-Ensures, or_fail-some}
use bic_os.Proxy.Opening.{Never}
use bic_os.Proxy.Upstream.{is_failed, is_operational, visit_set_extranonce, visit_notify}
use bic_os.Proxy.Run.{visit, visit_all, set_extranonce, notify}
use bic_os.Proxy.Sending.{str0_32}
use bic_os.Proxy.Downstream.{
  visit_submit_shares_standard, visit_open_standard_mining_channel, unrecognized_channel,
  is_connection_setup,
}

-- A number below a power of ten has so many digits at most.
length-digits : (fuel k n : ℕ) → n < 10 ^ suc k → length (digits fuel n) ≤ suc k
unfolding digits
length-digits zero k n lt = omega arith
length-digits (suc fuel) zero n lt = rw (lt→ltb n 10 lt) (omega arith)
length-digits (suc fuel) (suc k) n lt =
    let rest = length-digits fuel k (n / 10) (omega (arith, pow-suc 10 (suc k))) in
    elim (Bool-cases (ltb n 10)) [
      | inl small ↦ rw small (omega arith)
      | inr large ↦
          rw large (omega (arith, length-append (digits fuel (n / 10)) ((48 + n % 10) ∷ [])))
    ]

first_32-none : (text : List ℕ) → length text < 32 → first_32 text ≡ none
unfolding first_32
first_32-none text short = ground arith

module _ {V E : Type 0} (env : Env V E) where
  -- A share for a channel that the proxy does not know, with a number of seven digits at most, ends in
  -- a panic: the error text is shorter than the slice that is taken of it.
  pub visit_submit_shares_standard-panic :
      (share : SubmitSharesStandard) (t : Translation)
      → share.channel_id ≢ channel
      → share.channel_id < 10000000
      → visit_submit_shares_standard env share t ≡ (panic short_text, t)
  unfolding visit_submit_shares_standard reject_shares slice unrecognized_channel
  visit_submit_shares_standard-panic share t other few =
      let short : length (unrecognized_channel share.channel_id) < 32 = omega (
        arith,
        length-append (ascii "Unrecognized channel ID ") (decimal share.channel_id),
        length-digits 10 6 share.channel_id few,
      ) in
      let cut = first_32-none (unrecognized_channel share.channel_id) short in
      let unknown : (share.channel_id == channel) ≡ false = ground arith in rw unknown (rw cut refl)

  large_capacity :
      (payload : Notify) (nonce : List ℕ) (size : ℕ)
      → 2 ^ 63 ≤ size
      → length payload.coin_base_1 + length nonce + size + length payload.coin_base_2 < 2 ^ 64
      → ltb (coin_base_capacity payload nonce size) (2 ^ 63) ≡ false
  unfolding coin_base_capacity
  large_capacity payload nonce size large room = rw (mod-eq_of_lt room) (ground arith)

  -- A call that ends in this panic.
  abbrev Overflows : {A : Type 0} → Reply A × Translation → Type 0
  Overflows r = Ensures Never (λ p. p ≡ capacity_overflow) (λ _. Never) r.0 r.1

  overflows : {A : Type 0} (r : Reply A × Translation) → Overflows r → r.0 ≡ panic capacity_overflow
  overflows (ok a, t) h = absurd h.holds
  overflows (err e, t) h = absurd h.holds
  overflows (panic p, t) h = ap panic h.holds

  calculate_merkle_root-Overflows :
      (payload : Notify) (nonce : List ℕ) (t : Translation)
      → ltb (coin_base_capacity payload nonce t.v1_extra_nonce2_size) (2 ^ 63) ≡ false
      → t.v1_extra_nonce1 ≡ some nonce
      → Overflows (calculate_merkle_root env payload t)
  unfolding calculate_merkle_root with_capacity
  calculate_merkle_root-Overflows payload nonce t large present =
      let full = λ (n : List ℕ) (u : Translation).
        ltb (coin_base_capacity payload n u.v1_extra_nonce2_size) (2 ^ 63) ≡ false in
      bind full (or_fail-some full t.v1_extra_nonce1 nonce missing_extra_nonce1 t present large)
        λ n overflow.
          let u = (or_fail t.v1_extra_nonce1 missing_extra_nonce1 t).1 in
          bind (λ _. Never)
            (if-Ensures (ltb (coin_base_capacity payload n u.v1_extra_nonce2_size) (2 ^ 63)) _ _ u
              (λ below. absurd (cc (below, overflow))) (λ e. panicking refl))
            (λ _ never. absurd never)

  visit_notify-Overflows :
      (payload : Notify) (nonce : List ℕ) (t : Translation)
      → ltb (coin_base_capacity payload nonce t.v1_extra_nonce2_size) (2 ^ 63) ≡ false
      → t.v1_extra_nonce1 ≡ some nonce
      → is_operational t.phase ≡ true
      → Overflows (visit_notify env payload t)
  unfolding visit_notify perform_notify
  visit_notify-Overflows payload nonce t large present opened =
      if-Ensures (is_operational t.phase) _ _ t
        (λ e. bind_logged (
          bind (λ _. Never) (calculate_merkle_root-Overflows payload nonce t large present)
            (λ _ never. absurd never)))
        (λ e. absurd (cc (e, opened)))

  -- The pool is believed whatever size it gives to the second extranonce: on an open channel, after a
  -- size of 2 ^ 63 or more, the next job ends in a panic, if the capacity that is computed for the
  -- transaction stays in the 64 bits of `usize`. Whatever else the state is.
  pub visit_set_extranonce-visit_notify :
      (payload : Notify) (nonce : List ℕ) (size : ℕ) (t : Translation)
      → t.phase ≡ Phase.operational
      → 2 ^ 63 ≤ size
      → length payload.coin_base_1 + length nonce + size + length payload.coin_base_2 < 2 ^ 64
      → (visit_all env (set_extranonce nonce size ∷ notify payload ∷ []) t).0
        ≡ panic capacity_overflow
  unfolding visit_all visit visit_set_extranonce
  visit_set_extranonce-visit_notify payload nonce size t opened large room =
      let u = record t { v1_extra_nonce1 = some nonce; v1_extra_nonce2_size = size } in
      let over = large_capacity payload nonce size large room in
      let runs = visit_notify-Overflows payload nonce u over refl (ap is_operational opened) in
      overflows (visit_all env (set_extranonce nonce size ∷ notify payload ∷ []) t)
        (bind (λ _. Never) runs (λ _ never. absurd never))

  -- A request for a channel in any phase but the two in which it may be asked for ends in a panic: the
  -- error text does not fit into the answer.
  pub visit_open_standard_mining_channel-panic :
      (request : OpenStandardMiningChannel) (t : Translation)
      → (is_connection_setup t.phase || is_failed t.phase) ≡ false
      → visit_open_standard_mining_channel env request t ≡ (panic long_text, t)
  unfolding visit_open_standard_mining_channel str0_32
  visit_open_standard_mining_channel-panic request t early = go t.phase early
    where
      go :
          (p : Phase)
          → (is_connection_setup p || is_failed p) ≡ false
          → visit_open_standard_mining_channel env request (record t { phase = p })
            ≡ (panic long_text, record t { phase = p })
      go Phase.init e = refl
      go Phase.v1_configure e = refl
      go Phase.connection_setup e = cc
      go Phase.open_standard_mining_channel_pending e = refl
      go Phase.v1_subscribe_or_authorize_fail e = cc
      go Phase.operational e = refl
