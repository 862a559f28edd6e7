-- ===== src/Core/Variables/Manager.antt =====
-- NetworkVariableManager of src/core/network_variable_manager.*: its state, the operations of the
-- client, and the flush. The incoming snapshots stand in `Sync`.
use styly_net_sync_godot.Base.{
  ℕ, ◌+◌, Bool, true, false, not, ◌&&◌, ◌||◌, Option, none, some, List, [], ◌∷◌, ltb, leb,
  if◌then◌else◌, length,
}
use styly_net_sync_godot.Base.Int.{ℤ, pos, negsuc, eq_ℤ}
use styly_net_sync_godot.Base.Keys.{int_key, bytes_key, pair_key}
use styly_net_sync_godot.Base.Dict.{Dict, lookup, has, insert}
use styly_net_sync_godot.Wire.Utf8.{code_point_length}
use styly_net_sync_godot.Protocol.Variables.{
  max_variable_name_chars, max_variable_value_chars, serialize_global_var_set,
  serialize_client_var_set, serialize_client_var_clear,
}
use styly_net_sync_godot.Core.Link.{Link, transmit, client_number}
use styly_net_sync_godot.Core.Variables.Lane.{Lane, empty_lane, submit, flush_pending}

abbrev pub max_global_vars : ℕ
max_global_vars = 100

abbrev pub max_client_vars : ℕ
max_client_vars = 100

-- kInitialSyncTimeout, in milliseconds.
abbrev pub initial_sync_timeout : ℕ
initial_sync_timeout = 2000

-- A client number and a name: `ClientKey`.
abbrev pub ClientKey : Type 0
ClientKey = ℤ × List ℕ

abbrev pub Values : Type 0
Values = Dict (List ℕ) (List ℕ)

pub record VariableChange : Type 0 where
  -- 0 for a global variable
  pub client_no : ℤ
  pub name : List ℕ
  pub old_value : List ℕ
  pub new_value : List ℕ
  pub had_old_value : Bool
  pub removed : Bool

pub record Manager : Type 0 where
  pub link : Link
  pub local_client_no : ℤ
  pub local_device_id : List ℕ
  pub globals : Values
  pub client_variables : Dict ℤ Values
  pub global_lane : Lane (List ℕ)
  pub client_lane : Lane ClientKey
  pub has_received_initial_sync : Bool
  pub connection_established : Bool
  pub connection_established_at : ℕ

unfoldable pub validate_name : List ℕ → Bool
validate_name [] = false
validate_name (b ∷ bs) = not (ltb max_variable_name_chars (code_point_length (b ∷ bs)))

unfoldable pub validate_value : List ℕ → Bool
validate_value value = leb (code_point_length value) max_variable_value_chars

unfoldable pub global_payload : Manager → List ℕ → List ℕ → List ℕ
global_payload m name value = serialize_global_var_set (record {
  sender_client_no = client_number m.local_client_no;
  device_id = m.local_device_id;
  variable_name = name;
  variable_value = value;
})

unfoldable pub client_payload : Manager → ClientKey → List ℕ → List ℕ
client_payload m (target, name) value = serialize_client_var_set (record {
  sender_client_no = client_number m.local_client_no;
  device_id = m.local_device_id;
  target_client_no = client_number target;
  variable_name = name;
  variable_value = value;
})

unfoldable pub set_global : ℕ → List ℕ → List ℕ → Manager → Bool × Manager
set_global now name value m =
    if not (validate_name name)
    then (false, m)
    else if not (validate_value value)
    then (false, m)
    else if leb max_global_vars (length m.globals) && not (has name m.globals)
    then (false, m)
    else let (lane, link) =
        submit now (global_payload m name value) name value m.global_lane m.link in
      (true, record m { global_lane = lane; link = link })

unfoldable pub get_global : List ℕ → Manager → Option (List ℕ)
get_global name m = lookup name m.globals

abbrev pub or_empty : Option Values → Values
or_empty none = []
or_empty (some variables) = variables

-- `client_variables_[target_client_no]` makes an empty entry where there is none.
abbrev pub touch : ℤ → Option Values → Dict ℤ Values → Dict ℤ Values
touch target none variables = insert target [] variables
touch target (some _) variables = variables

unfoldable pub set_client : ℕ → ℤ → List ℕ → List ℕ → Manager → Bool × Manager
set_client now target name value m =
    if not (validate_name name)
    then (false, m)
    else if not (validate_value value)
    then (false, m)
    else let found = lookup target m.client_variables in
      let variables = or_empty found in
      let touched = touch target found m.client_variables in
      if leb max_client_vars (length variables) && not (has name variables)
      then (false, record m { client_variables = touched })
      else let (lane, link) =
          submit now (client_payload m (target, name) value) (target, name) value m.client_lane
            m.link in
        (true, record m { client_variables = touched; client_lane = lane; link = link })

unfoldable pub get_client : ℤ → List ℕ → Manager → Option (List ℕ)
get_client client_no name m = lookup name (or_empty (lookup client_no m.client_variables))

unfoldable pub all_client_variables : ℤ → Manager → Values
all_client_variables client_no m = or_empty (lookup client_no m.client_variables)

unfoldable pub reset_initial_sync : Manager → Manager
reset_initial_sync m = record m {
  has_received_initial_sync = false;
  connection_established = false;
  connection_established_at = 0;
}

unfoldable pub on_connection_established : ℕ → Manager → Manager
on_connection_established now m = record m {
  connection_established = true;
  connection_established_at = now;
}

unfoldable pub check_initial_sync_timeout : ℕ → Manager → Bool × Manager
check_initial_sync_timeout now m =
    if m.has_received_initial_sync || not m.connection_established
    then (false, m)
    else if ltb now (m.connection_established_at + initial_sync_timeout)
    then (false, m)
    else (true, record m { has_received_initial_sync = true })

-- The loops of clear_pending_for_client, one for each map.
unfoldable pub erase_client : {V : Type 0} → ℤ → Dict ClientKey V → Dict ClientKey V
erase_client client_no [] = []
erase_client client_no (((c, name), v) ∷ m) =
    if eq_ℤ c client_no then erase_client client_no m else ((c, name), v) ∷ erase_client client_no m

unfoldable pub clear_pending_for_client : ℤ → Lane ClientKey → Lane ClientKey
clear_pending_for_client client_no lane = record {
  last_sent = erase_client client_no lane.last_sent;
  next_allowed = erase_client client_no lane.next_allowed;
  pending = erase_client client_no lane.pending;
  due = erase_client client_no lane.due;
}

abbrev pub is_positive : ℤ → Bool
is_positive (pos n) = ltb 0 n
is_positive (negsuc n) = false

unfoldable pub removals : ℤ → Values → List VariableChange
removals client_no [] = []
removals client_no ((name, value) ∷ rest) =
    record {
      client_no = client_no;
      name = name;
      old_value = value;
      new_value = [];
      had_old_value = true;
      removed = true;
    }
    ∷ removals client_no rest

-- The entry itself stays, empty.
abbrev pub emptied : ℤ → Option Values → Dict ℤ Values → Dict ℤ Values
emptied client_no none variables = variables
emptied client_no (some _) variables = insert client_no [] variables

abbrev pub cleared : Manager → Bool × Link → Bool × Manager × List VariableChange
cleared m (false, link) = (false, record m { link = link }, [])
cleared m (true, link) =
    let found = lookup m.local_client_no m.client_variables in
    (
      true,
      record m {
        link = link;
        client_variables = emptied m.local_client_no found m.client_variables;
        client_lane = clear_pending_for_client m.local_client_no m.client_lane;
      },
      removals m.local_client_no (or_empty found),
    )

unfoldable pub clear_payload : Manager → List ℕ
clear_payload m =
    serialize_client_var_clear
      (record { sender_client_no = client_number m.local_client_no; device_id = m.local_device_id })

-- The changes are what is appended to the caller's list.
unfoldable pub clear_my_client_variables : Manager → Bool × Manager × List VariableChange
clear_my_client_variables m =
    if not (is_positive m.local_client_no)
    then (false, m, [])
    else cleared m (transmit (clear_payload m) m.link)

-- flush_pending_global, then flush_pending_client.
unfoldable pub tick : ℕ → Manager → Bool × Manager
tick now m =
    let (global_ok, global_lane, link) =
      flush_pending (global_payload m) now m.global_lane m.link in
    let (client_ok, client_lane, link') = flush_pending (client_payload m) now m.client_lane link in
    (
      global_ok && client_ok,
      record m { global_lane = global_lane; client_lane = client_lane; link = link' },
    )

unfoldable pub clear_pending_sends : Manager → Manager
clear_pending_sends m = record m { global_lane = empty_lane; client_lane = empty_lane }

unfoldable pub clear_all : Manager → Manager
unfolding clear_pending_sends reset_initial_sync
clear_all m =
    reset_initial_sync (record (clear_pending_sends m) { globals = []; client_variables = [] })
