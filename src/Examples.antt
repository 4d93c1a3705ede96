-- ===== src/Examples.antt =====
-- Tests of the definitions on small inputs, and the theorems at concrete inputs.
mod Runs
mod Worlds
mod Events
mod Hosts
mod Views
mod Places
use minecraft_orchestrator.Base.{
  ℕ, zero, suc, ◌+◌, ◌≤◌, ◌^◌, true, false, Option, none, some, List, [], ◌∷◌, ◌++◌, ◌≡◌, ◌≢◌, ◌↔◌,
  refl, ◌<◌, arith, map, length, All,
}
use minecraft_orchestrator.Base.Words.{put_u32, u32_of}
use minecraft_orchestrator.HostTransport.Frame.{
  Decoder, PushResult, ok as pushed, err as refused, encode, push, take_frames,
}
use minecraft_orchestrator.HostTransport.Frame.Stream.{
  read_all, outcome, flatten, read_all-push, read_all-encode, push_bounds,
}
use minecraft_orchestrator.HostTransport.Frame.Prefix.{AreBytes, HasPrefix, read_all-HasPrefix}
use minecraft_orchestrator.Model.Types.{
  FailedPlan, GoalTarget, BlockPosition, Position, idle, no_target, no_action, no_exit,
}
use minecraft_orchestrator.Model.FailedPlans.{FailedPlanCache, add}
use minecraft_orchestrator.Model.FailedPlans.Refinement.{plans, newest, plans-add}
use minecraft_orchestrator.Model.Controller.{
  ControllerState, empty_controller_state, equal, validate_controller_state, diff_controller_state,
}
use minecraft_orchestrator.Model.Controller.Laws.{
  Keeps, one_shots, first_only, equal_iff, validate_controller_state_lem,
}
use minecraft_orchestrator.Model.Controller.Delta.{apply_delta, apply_delta-diff, diff-none_iff}
use minecraft_orchestrator.Wire.VarInt.{ok, err, read_var_int, write_var_int, read_from, write_from}
use minecraft_orchestrator.Wire.VarInt.RoundTrip.{read_var_int-write_var_int}
use minecraft_orchestrator.Wire.Packet.{
  Packet, Codec, Zlib, write_packet, packet_data, write_frame, compressed_frame, read_packet,
}
use minecraft_orchestrator.Wire.Packet.RoundTrip.{Lossless, read_packet-write_packet}

-- Frames.
abbrev small_decoder : Decoder
small_decoder = record { maximum_frame_size = 8; buffer = [] }

abbrev payloads : List (List ℕ)
payloads = (1 ∷ 2 ∷ 3 ∷ []) ∷ [] ∷ (9 ∷ []) ∷ []

encode_three : encode (1 ∷ 2 ∷ 3 ∷ []) ≡ 0 ∷ 0 ∷ 0 ∷ 3 ∷ 1 ∷ 2 ∷ 3 ∷ []
unfolding encode
encode_three = refl

push_over : (push small_decoder (0 ∷ 0 ∷ 0 ∷ 9 ∷ [])).1 ≡ refused 9
unfolding push take_frames u32_of
push_over = refl

read_all-encode_example :
    read_all small_decoder
      ((0 ∷ 0 ∷ 0 ∷ 3 ∷ 1 ∷ []) ∷ (2 ∷ 3 ∷ 0 ∷ 0 ∷ []) ∷ (0 ∷ 0 ∷ 0 ∷ 0 ∷ 0 ∷ 1 ∷ 9 ∷ []) ∷ [])
    ≡ (payloads, none)
unfolding encode
read_all-encode_example =
    read_all-encode small_decoder payloads (0 ∷ 0 ∷ 0 ∷ 3 ∷ 1 ∷ [])
      ((2 ∷ 3 ∷ 0 ∷ 0 ∷ []) ∷ (0 ∷ 0 ∷ 0 ∷ 0 ∷ 0 ∷ 1 ∷ 9 ∷ []) ∷ []) refl (omega arith)
      (omega arith, (omega arith, (omega arith, tt))) refl

-- The frame of the first read is handed out although the second announces more than the limit.
delivered_first :
    read_all small_decoder ((0 ∷ 0 ∷ 0 ∷ 1 ∷ 7 ∷ 0 ∷ []) ∷ (0 ∷ 0 ∷ 9 ∷ []) ∷ [])
    ≡ ((7 ∷ []) ∷ [], some 9)
unfolding push take_frames u32_of
delivered_first = refl

read_all-push_example :
    outcome (read_all small_decoder ((0 ∷ 0 ∷ 0 ∷ 1 ∷ 7 ∷ 0 ∷ []) ∷ (0 ∷ 0 ∷ 9 ∷ []) ∷ []))
    ≡ (push small_decoder (0 ∷ 0 ∷ 0 ∷ 1 ∷ 7 ∷ 0 ∷ 0 ∷ 0 ∷ 9 ∷ [])).1
read_all-push_example =
    read_all-push small_decoder (0 ∷ 0 ∷ 0 ∷ 1 ∷ 7 ∷ 0 ∷ []) ((0 ∷ 0 ∷ 9 ∷ []) ∷ [])

abbrev late_refusal : List (List ℕ)
late_refusal = (0 ∷ 0 ∷ 0 ∷ 1 ∷ 7 ∷ 0 ∷ []) ∷ (0 ∷ 0 ∷ 9 ∷ []) ∷ []

late_refusal-AreBytes : AreBytes (flatten late_refusal)
late_refusal-AreBytes = (
  omega arith,
  (
    omega arith,
    (
      omega arith,
      (omega arith, (omega arith, (omega arith, (omega arith, (omega arith, (omega arith, tt)))))),
    ),
  ),
)

read_all-HasPrefix_example :
    HasPrefix ([] ++ flatten late_refusal) (read_all small_decoder late_refusal)
read_all-HasPrefix_example = read_all-HasPrefix small_decoder late_refusal tt late_refusal-AreBytes

push_bounds_example :
    (length (push small_decoder (0 ∷ 0 ∷ 0 ∷ 1 ∷ 7 ∷ 5 ∷ [])).0.buffer
      < 4 + small_decoder.maximum_frame_size)
    × All (λ (f : List ℕ). length f ≤ 8) ((7 ∷ []) ∷ [])
unfolding push take_frames u32_of
push_bounds_example = push_bounds small_decoder (0 ∷ 0 ∷ 0 ∷ 1 ∷ 7 ∷ 5 ∷ []) ((7 ∷ []) ∷ []) refl

-- Failed plans.
abbrev origin : BlockPosition
origin = record { x = 0; y = 0; z = 0 }

abbrev no_plan : FailedPlan
no_plan = record {
  goal = idle;
  action = no_action;
  target = record {
    kind = no_target;
    entity_id = 0;
    block_at = origin;
    item_name = "";
    destination_at = record { x = 0; y = 0; z = 0 };
  };
  reason = no_exit;
  correlation = 0;
  preconditions_hash = 0;
  craft_count = 0;
  place_item = "";
}

abbrev repeat_plan : ℕ → List FailedPlan
repeat_plan zero = []
repeat_plan (suc n) = record no_plan { correlation = n } ∷ repeat_plan n

abbrev full_cache : FailedPlanCache
full_cache = record { entries = repeat_plan 16; count = 16 }

plans-add_example :
    (plans (add full_cache no_plan) ≡ newest 16 (plans full_cache ++ no_plan ∷ []))
    × (length (add full_cache no_plan).entries ≡ 16)
plans-add_example = plans-add full_cache no_plan refl

-- Controller states.
abbrev digging : ControllerState
digging = record {
  goto_target = some origin;
  break_target = some origin;
  attack_target = some 7;
  craft_target = none;
  equip_target = some "pickaxe";
  consume_target = none;
  place_target = none;
}

abbrev walking : ControllerState
walking = record digging { break_target = none; attack_target = none }

equal_iff_example : (equal digging (some walking) ≡ true) ↔ (digging ≡ walking)
equal_iff_example = equal_iff digging walking

validate_controller_state_example :
    (one_shots (validate_controller_state digging) ≡ first_only (one_shots digging))
    × ((validate_controller_state digging).goto_target ≡ digging.goto_target)
    × ((validate_controller_state digging).equip_target ≡ digging.equip_target)
    × Keeps (validate_controller_state digging) digging
    × (validate_controller_state (validate_controller_state digging)
        ≡ validate_controller_state digging)
validate_controller_state_example = validate_controller_state_lem digging

apply_delta-diff_example : apply_delta (diff_controller_state digging walking) digging ≡ walking
apply_delta-diff_example = apply_delta-diff digging walking

diff-none_example : (diff_controller_state digging walking ≡ none) ↔ (digging ≡ walking)
diff-none_example = diff-none_iff digging walking

-- VarInts and packets.
write_three_hundred : write_var_int 300 ≡ 172 ∷ 2 ∷ []
unfolding write_var_int write_from
write_three_hundred = refl

read_var_int-write_var_int_example : read_var_int (write_var_int 300 ++ 5 ∷ []) ≡ ok (300, 5 ∷ [])
read_var_int-write_var_int_example = read_var_int-write_var_int 300 (5 ∷ []) (omega arith)

abbrev stored : Zlib
stored = record { compress = λ bytes. bytes; read_limited = λ n bytes. some bytes }

abbrev packet : Packet
packet = record { id = 300; body = 1 ∷ 2 ∷ [] }

abbrev compressing : Codec
compressing = record { compression_enabled = true; compression_threshold = 3 }

read_packet-write_packet_example :
    read_packet stored compressing (5 ∷ 4 ∷ 172 ∷ 2 ∷ 1 ∷ 2 ∷ 8 ∷ []) ≡ ok (packet, 8 ∷ [])
unfolding write_packet packet_data write_frame compressed_frame write_var_int write_from
read_packet-write_packet_example =
    read_packet-write_packet stored compressing packet (5 ∷ 4 ∷ 172 ∷ 2 ∷ 1 ∷ 2 ∷ []) (8 ∷ [])
      (λ n bytes h. refl) (omega arith) refl
