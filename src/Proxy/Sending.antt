-- ===== src/Proxy/Sending.antt =====
-- `SeqId`, `submit_message`, `v1_method_into_message` and the maps of
-- open/stratum-proxy/src/translation.rs and open/stratum-proxy/src/util.rs.
use bic_os.Base.{
  ℕ, ◌+◌, ◌%◌, ◌^◌, Bool, Option, none, some, List, [], ◌∷◌, ◌++◌, ◌==◌, leb, length, if◌then◌else◌,
}
use bic_os.Stratum.Messages.{Message}
use bic_os.Proxy.{
  Sender, Request, Method, Handler, full, Panic, Action, Env, pure, crash, ok, err, panic,
}

-- The number after `SeqId::next`: `wrapping_add`.
abbrev pub next_id : ℕ → ℕ
next_id n = (n + 1) % 2 ^ 32

-- `HashMap::get` and `HashMap::remove`. A key stands in a map once.
unfoldable pub lookup : {A : Type 0} → ℕ → List (ℕ × A) → Option A
lookup k [] = none
lookup k ((j, a) ∷ m) = if j == k then some a else lookup k m

unfoldable pub erase : {A : Type 0} → ℕ → List (ℕ × A) → List (ℕ × A)
erase k [] = []
erase k ((j, a) ∷ m) = let rest = erase k m in if j == k then rest else (j, a) ∷ rest

-- One attempt to send: a full channel keeps what it has.
abbrev pub try_send : {A : Type 0} → (ℕ → Bool) → Sender A → A → Bool × Sender A
try_send room tx m =
    let tried = tx.tries + 1 in
    if room tx.tries
    then (Bool.true, record { sent = tx.sent ++ (m ∷ []); tries = tried })
    else (Bool.false, record { sent = tx.sent; tries = tried })

module _ {V E : Type 0} (env : Env V E) where
  -- `util::submit_message` to the client.
  unfoldable pub submit_v2 : Message → Action (Unit {0})
  submit_v2 m t =
      let (room, tx) = try_send env.v2_room t.v2_tx m in
      let reply = if room then ok tt else err full in (reply, record t { v2_tx = tx })

  -- `util::submit_message` to the pool.
  unfoldable pub submit_v1 : Request → Action (Unit {0})
  submit_v1 m t =
      let (room, tx) = try_send env.v1_room t.v1_tx m in
      let reply = if room then ok tt else err full in (reply, record t { v1_tx = tx })

-- `v1_method_into_message`: an id for the request, under which its handlers are kept.
unfoldable pub v1_method_into_message : Method → Handler → Action Request
unfolding lookup erase
v1_method_into_message method handler t =
    let id = t.v1_req_id in
    let numbered = record t {
      v1_req_id = next_id id;
      v1_req_map = (id, handler) ∷ erase id t.v1_req_map;
    } in
    elim (lookup id t.v1_req_map) [
      | none ↦ (ok (record { id = id; method = method }), numbered)
      | some old ↦ (panic Panic.v1_id_exists, numbered)
    ]

-- `try_into` of a literal into `Str0_32`, with `expect`.
unfoldable pub str0_32 : List ℕ → Action (List ℕ)
str0_32 text = if leb (length text) 32 then pure text else crash Panic.long_text
