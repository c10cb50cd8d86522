-- ===== src/Proxy.antt =====
-- The stratum proxy, open/stratum-proxy/src/translation.rs: a client that speaks Stratum V2 is served
-- by a pool that speaks Stratum V1. This module has the state of a translation and the actions that
-- its handlers are made of: they read and change the state, fail, or panic.
pub mod Text
pub mod Sending
pub mod Channel
pub mod Upstream
pub mod Downstream
pub mod Run
pub mod Logic
pub mod Invariant
pub mod Faults
pub mod Opening
pub mod Shares
mod Tests
use bic_os.Base.{ℕ, Bool, true, false, Option, none, some, List, []}
use bic_os.Stratum.Messages.{Message, SetupConnection, OpenStandardMiningChannel}

-- `V2ToV1TranslationState`.
pub data Phase : Type 0 where
  init v1_configure connection_setup open_standard_mining_channel_pending : Phase
  v1_subscribe_or_authorize_fail operational : Phase

-- `v1::messages::Notify`: texts are their bytes, `HexBytes` the bytes they decode to.
pub record Notify : Type 0 where
  pub job_id : List ℕ
  pub prev_hash : List ℕ
  pub coin_base_1 : List ℕ
  pub coin_base_2 : List ℕ
  pub merkle_branch : List (List ℕ)
  pub version : ℕ
  pub bits : ℕ
  pub time : ℕ
  pub clean_jobs : Bool

-- `v1::messages::Submit`.
pub record Submit : Type 0 where
  pub user_name : List ℕ
  pub job_id : List ℕ
  pub extra_nonce_2 : List ℕ
  pub time : ℕ
  pub nonce : ℕ
  pub version : ℕ

-- The V1 requests that the proxy makes, before they are turned into JSON.
pub data Method : Type 0 where
  configure : ℕ → ℕ → Method
  subscribe : List ℕ → List ℕ → Method
  extranonce_subscribe : Method
  authorize : List ℕ → List ℕ → Method
  submit : Submit → Method

pub record Request : Type 0 where
  pub id : ℕ
  pub method : Method

-- `V1CompoundHandler`: the pair of handlers of a request, named for the request.
pub data Handler : Type 0 where
  configured subscribed extranonce_subscribed authorized submitted : Handler

-- `V1SubmitTemplate`.
pub record SubmitTemplate : Type 0 where
  pub job_id : List ℕ
  pub time : ℕ
  pub version : ℕ

-- The sending half of a channel: what was put into it, the first message first, and how often
-- sending was tried.
pub record Sender (A : Type 0) : Type 0 where
  pub sent : List A
  pub tries : ℕ

-- `V2ToV1Translation`, with its one option. A map is the list of its entries.
pub record Translation : Type 0 where
  pub phase : Phase
  pub v1_tx : Sender Request
  pub v1_req_id : ℕ
  pub v1_req_map : List (ℕ × Handler)
  pub v1_extra_nonce1 : Option (List ℕ)
  pub v1_extra_nonce2_size : ℕ
  pub v1_authorized : Bool
  pub v1_xnsub_enabled : Bool
  pub v1_force_future_jobs : Bool
  pub v1_deferred_notify : Option Notify
  pub v2_tx : Sender Message
  pub v2_conn_details : Option SetupConnection
  pub v2_channel_details : Option OpenStandardMiningChannel
  pub v2_target : Option ℕ
  pub v2_job_id : ℕ
  pub v2_to_v1_job_map : List (ℕ × SubmitTemplate)
  pub try_enable_xnsub : Bool

abbrev pub empty_sender : {A : Type 0} → Sender A
empty_sender = record { sent = []; tries = 0 }

-- `new`.
abbrev pub new : Bool → Translation
new xnsub = record {
  phase = Phase.init;
  v1_tx = empty_sender;
  v1_req_id = 0;
  v1_req_map = [];
  v1_extra_nonce1 = none;
  v1_extra_nonce2_size = 0;
  v1_authorized = false;
  v1_xnsub_enabled = false;
  v1_force_future_jobs = true;
  v1_deferred_notify = none;
  v2_tx = empty_sender;
  v2_conn_details = none;
  v2_channel_details = none;
  v2_target = none;
  v2_job_id = 0;
  v2_to_v1_job_map = [];
  try_enable_xnsub = xnsub;
}

-- The errors that the handlers return, by their origin.
pub data Error : Type 0 where
  full channel_not_operational parse refused missing_extra_nonce1 bad_hash : Error
  missing_id invalid_id : Error

-- The places where the code panics, and the abort where the memory for a buffer is not to be had.
pub data Panic : Type 0 where
  v1_id_exists v2_id_exists no_target no_connection no_channel : Panic
  long_text short_text zero_difficulty capacity_overflow out_of_memory : Panic

pub data Reply (A : Type 0) : Type 0 where
  ok : A → Reply A
  err : Error → Reply A
  panic : Panic → Reply A

-- What a call changed stays changed when it fails.
abbrev pub Action : Type 0 → Type 0
Action A = Translation → Reply A × Translation

module _ {A : Type 0} where
  abbrev pub pure : A → Action A
  pure a t = (ok a, t)

  abbrev pub fail : Error → Action A
  fail e t = (err e, t)

  abbrev pub crash : Panic → Action A
  crash p t = (panic p, t)

  abbrev pub gets : (Translation → A) → Action A
  gets f t = (ok (f t), t)

  -- `ok_or`.
  abbrev pub or_fail : Option A → Error → Action A
  or_fail none e = fail e
  or_fail (some a) _ = pure a

  -- `expect`.
  abbrev pub or_crash : Option A → Panic → Action A
  or_crash none p = crash p
  or_crash (some a) _ = pure a

abbrev pub modify : (Translation → Translation) → Action (Unit {0})
modify f t = (ok tt, f t)

infixl 5 ◌>>=◌ ◌>>◌
abbrev pub ◌>>=◌ : {A B : Type 0} → Action A → (A → Action B) → Action B
◌>>=◌ m f t =
    let (r, u) = m t in elim r [ ok a ↦ f a u | err e ↦ (err e, u) | panic p ↦ (panic p, u) ]

abbrev pub ◌>>◌ : {A B : Type 0} → Action A → Action B → Action B
m >> k = m >>= λ _. k

-- `map_err` with an action, after which the error goes on.
abbrev pub on_error : {A : Type 0} → Action A → Action (Unit {0}) → Action A
on_error m cleanup t =
    let (r, u) = m t in
    elim r [ ok a ↦ (ok a, u) | err e ↦ (cleanup >> fail e) u | panic p ↦ (panic p, u) ]

-- An error is logged and forgotten.
abbrev pub logged : Action (Unit {0}) → Action (Unit {0})
logged m t =
    let (r, u) = m t in elim r [ ok a ↦ (ok tt, u) | err e ↦ (ok tt, u) | panic p ↦ (panic p, u) ]

-- `if let Err(..) = first { return; }` before the rest.
abbrev pub or_return : Action (Unit {0}) → Action (Unit {0}) → Action (Unit {0})
or_return first rest t =
    let (r, u) = first t in elim r [ ok a ↦ rest u | err e ↦ (ok tt, u) | panic p ↦ (panic p, u) ]

-- What the proxy takes from other crates and from its channels: whether the n-th attempt to send
-- finds room, whether a buffer of so many bytes can be had, SHA256d, what serde_json reads from a
-- result, what the debug output of a response is, and the cast of a float to an integer.
pub record Env (V E : Type 0) : Type 0 where
  pub v1_room : ℕ → Bool
  pub v2_room : ℕ → Bool
  pub memory : ℕ → Bool
  pub sha256d : List ℕ → List ℕ
  pub as_boolean : V → Option Bool
  pub as_subscribe : V → Option (List ℕ × ℕ)
  pub version_rolling : V → Option Bool
  pub version_rolling_mask : V → Option ℕ
  pub debug_result : V → List ℕ
  pub debug_error : E → List ℕ
  pub as_u32 : ℕ → ℕ
