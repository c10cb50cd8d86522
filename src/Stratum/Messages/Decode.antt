-- ===== src/Stratum/Messages/Decode.antt =====
-- `Deserialize` of the messages: the fields taken in order from what was read.
use bic_os.Base.{ℕ, Bool, Option, none, some, List, [], ◌∷◌}
use bic_os.Stratum.Serialization.{Width, Value, Values}
use bic_os.Stratum.Messages.{DeviceInfo, Message, MessageType}

infixl 5 ◌>>=◌
abbrev ◌>>=◌ : {A B : Type 0} → Option A → (A → Option B) → Option B
none >>= f = none
some a >>= f = f a

abbrev as_u8 : Value → Option ℕ
as_u8 (Value.unsigned Width.w8 n) = some n
as_u8 _ = none

abbrev as_u16 : Value → Option ℕ
as_u16 (Value.unsigned Width.w16 n) = some n
as_u16 _ = none

abbrev as_u32 : Value → Option ℕ
as_u32 (Value.unsigned Width.w32 n) = some n
as_u32 _ = none

abbrev as_f32 : Value → Option ℕ
as_f32 (Value.f32 n) = some n
as_f32 _ = none

abbrev as_bool : Value → Option Bool
as_bool (Value.bool b) = some b
as_bool _ = none

unfoldable pub as_u8s : Values → Option (List ℕ)
as_u8s Values.nil = some []
as_u8s (Values.cons v vs) = do b ← as_u8 v; bs ← as_u8s vs; some (b ∷ bs)

abbrev as_text : Value → Option (List ℕ)
as_text (Value.newtype n (Value.str s)) = some s
as_text _ = none

abbrev as_byte_box : Value → Option (List ℕ)
as_byte_box (Value.newtype n (Value.seq len vs)) = as_u8s vs
as_byte_box _ = none

abbrev as_uint256 : Value → Option (List ℕ)
as_uint256 (Value.newtype n (Value.tuple vs)) = as_u8s vs
as_uint256 _ = none

-- The next field of a struct, by the reading of its type.
abbrev next : {A : Type 0} → (Value → Option A) → Values → Option (A × Values)
next read Values.nil = none
next read (Values.cons v vs) = do a ← read v; some (a, vs)

abbrev fields : Value → Option Values
fields (Value.tuple vs) = some vs
fields _ = none

abbrev as_device_info : Value → Option DeviceInfo
as_device_info v = do
  vs ← fields v
  (vendor, vs1) ← next as_text vs
  (hw_rev, vs2) ← next as_text vs1
  (fw_ver, vs3) ← next as_text vs2
  (dev_id, vs4) ← next as_text vs3
  some (record { vendor = vendor; hw_rev = hw_rev; fw_ver = fw_ver; dev_id = dev_id })

-- A message of the given type from what was read at its shape.
unfoldable pub of_value : MessageType → Value → Option Message
unfolding as_u8s
of_value MessageType.setup_connection v = do
  vs ← fields v
  (protocol, vs1) ← next as_u8 vs
  (min_version, vs2) ← next as_u16 vs1
  (max_version, vs3) ← next as_u16 vs2
  (flags, vs4) ← next as_u32 vs3
  (endpoint_host, vs5) ← next as_text vs4
  (endpoint_port, vs6) ← next as_u16 vs5
  (device, vs7) ← next as_device_info vs6
  some (
      Message.setup_connection (record {
        protocol = protocol;
        min_version = min_version;
        max_version = max_version;
        flags = flags;
        endpoint_host = endpoint_host;
        endpoint_port = endpoint_port;
        device = device;
      }))
of_value MessageType.setup_connection_success v = do
  vs ← fields v
  (used_version, vs1) ← next as_u16 vs
  (flags, vs2) ← next as_u32 vs1
  some (Message.setup_connection_success (record { used_version = used_version; flags = flags }))
of_value MessageType.setup_connection_error v = do
  vs ← fields v
  (flags, vs1) ← next as_u32 vs
  (code, vs2) ← next as_text vs1
  some (Message.setup_connection_error (record { flags = flags; code = code }))
of_value MessageType.open_standard_mining_channel v = do
  vs ← fields v
  (req_id, vs1) ← next as_u32 vs
  (user, vs2) ← next as_text vs1
  (nominal_hashrate, vs3) ← next as_f32 vs2
  (max_target, vs4) ← next as_uint256 vs3
  some (
      Message.open_standard_mining_channel (record {
        req_id = req_id;
        user = user;
        nominal_hashrate = nominal_hashrate;
        max_target = max_target;
      }))
of_value MessageType.open_standard_mining_channel_success v = do
  vs ← fields v
  (req_id, vs1) ← next as_u32 vs
  (channel_id, vs2) ← next as_u32 vs1
  (target, vs3) ← next as_uint256 vs2
  (extranonce_prefix, vs4) ← next as_byte_box vs3
  (group_channel_id, vs5) ← next as_u32 vs4
  some (
      Message.open_standard_mining_channel_success (record {
        req_id = req_id;
        channel_id = channel_id;
        target = target;
        extranonce_prefix = extranonce_prefix;
        group_channel_id = group_channel_id;
      }))
of_value MessageType.open_standard_mining_channel_error v = do
  vs ← fields v
  (req_id, vs1) ← next as_u32 vs
  (code, vs2) ← next as_text vs1
  some (Message.open_standard_mining_channel_error (record { req_id = req_id; code = code }))
of_value MessageType.submit_shares_standard v = do
  vs ← fields v
  (channel_id, vs1) ← next as_u32 vs
  (seq_num, vs2) ← next as_u32 vs1
  (job_id, vs3) ← next as_u32 vs2
  (nonce, vs4) ← next as_u32 vs3
  (ntime, vs5) ← next as_u32 vs4
  (version, vs6) ← next as_u32 vs5
  some (
      Message.submit_shares_standard (record {
        channel_id = channel_id;
        seq_num = seq_num;
        job_id = job_id;
        nonce = nonce;
        ntime = ntime;
        version = version;
      }))
of_value MessageType.submit_shares_success v = do
  vs ← fields v
  (channel_id, vs1) ← next as_u32 vs
  (last_seq_num, vs2) ← next as_u32 vs1
  (new_submits_accepted_count, vs3) ← next as_u32 vs2
  (new_shares_sum, vs4) ← next as_u32 vs3
  some (
      Message.submit_shares_success (record {
        channel_id = channel_id;
        last_seq_num = last_seq_num;
        new_submits_accepted_count = new_submits_accepted_count;
        new_shares_sum = new_shares_sum;
      }))
of_value MessageType.submit_shares_error v = do
  vs ← fields v
  (channel_id, vs1) ← next as_u32 vs
  (seq_num, vs2) ← next as_u32 vs1
  (code, vs3) ← next as_text vs2
  some (
      Message.submit_shares_error
        (record { channel_id = channel_id; seq_num = seq_num; code = code }))
of_value MessageType.new_mining_job v = do
  vs ← fields v
  (channel_id, vs1) ← next as_u32 vs
  (job_id, vs2) ← next as_u32 vs1
  (future_job, vs3) ← next as_bool vs2
  (version, vs4) ← next as_u32 vs3
  (merkle_root, vs5) ← next as_uint256 vs4
  some (
      Message.new_mining_job (record {
        channel_id = channel_id;
        job_id = job_id;
        future_job = future_job;
        version = version;
        merkle_root = merkle_root;
      }))
of_value MessageType.set_new_prev_hash v = do
  vs ← fields v
  (channel_id, vs1) ← next as_u32 vs
  (job_id, vs2) ← next as_u32 vs1
  (prev_hash, vs3) ← next as_uint256 vs2
  (min_ntime, vs4) ← next as_u32 vs3
  (nbits, vs5) ← next as_u32 vs4
  some (
      Message.set_new_prev_hash (record {
        channel_id = channel_id;
        job_id = job_id;
        prev_hash = prev_hash;
        min_ntime = min_ntime;
        nbits = nbits;
      }))
of_value MessageType.set_target v = do
  vs ← fields v
  (channel_id, vs1) ← next as_u32 vs
  (max_target, vs2) ← next as_uint256 vs1
  some (Message.set_target (record { channel_id = channel_id; max_target = max_target }))
of_value _ v = none
