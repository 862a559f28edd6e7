-- ===== src/Protocol/Pose/Flags.antt =====
-- The pose and encoding flags of src/protocol/message_types.hpp, and what protocol_v8.cpp makes of
-- them.
use styly_net_sync_godot.Base.{ℕ, ◌-◌, ◌/◌, ◌%◌, Bool, not, ◌==◌, if◌then◌else◌}

abbrev pub pose_flag_stealth : ℕ
pose_flag_stealth = 1

abbrev pub pose_flag_physical_valid : ℕ
pose_flag_physical_valid = 2

abbrev pub pose_flag_head_valid : ℕ
pose_flag_head_valid = 4

abbrev pub pose_flag_right_valid : ℕ
pose_flag_right_valid = 8

abbrev pub pose_flag_left_valid : ℕ
pose_flag_left_valid = 16

abbrev pub pose_flag_virtuals_valid : ℕ
pose_flag_virtuals_valid = 32

abbrev pub pose_flag_moving_floor_local : ℕ
pose_flag_moving_floor_local = 64

abbrev pub encoding_physical_is_xrorigin_delta : ℕ
encoding_physical_is_xrorigin_delta = 16

-- Five flags, the bits 0 to 4.
abbrev pub encoding_flags_default : ℕ
encoding_flags_default = 31

abbrev pub max_virtual_transforms : ℕ
max_virtual_transforms = 50

-- `(flags & flag) != 0` and `flags & ~flag`, for a flag that is one bit.
abbrev pub has_flag : (flags flag : ℕ) → Bool
has_flag flags flag = flags / flag % 2 == 1

abbrev pub clear_flag : (flags flag : ℕ) → ℕ
clear_flag flags flag = if flags / flag % 2 == 1 then flags - flag else flags

unfoldable pub sanitize_pose_flags : ℕ → ℕ
sanitize_pose_flags flags =
    if has_flag flags pose_flag_stealth
    then pose_flag_stealth
    else if not (has_flag flags pose_flag_head_valid)
    then clear_flag (clear_flag (clear_flag flags pose_flag_right_valid) pose_flag_left_valid)
        pose_flag_virtuals_valid
    else flags

unfoldable pub compute_encoding_flags : ℕ → ℕ
compute_encoding_flags flags =
    if has_flag flags pose_flag_moving_floor_local
    then clear_flag encoding_flags_default encoding_physical_is_xrorigin_delta
    else encoding_flags_default
