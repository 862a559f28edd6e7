-- ===== src/Wire/Decode.antt =====
-- Deserialisers of src/protocol/protocol_v8.cpp as a monad over the reader. `none` is `return
-- false`: the message under construction, which every caller then drops, is not kept.
pub mod RoundTrip
pub mod Stable
use styly_net_sync_godot.Base.{
  ℕ, zero, suc, Bool, true, false, Option, none, some, List, [], ◌∷◌, if◌then◌else◌,
}
use styly_net_sync_godot.Wire.Reader.{Reader, open_reader}

abbrev pub Decode {ℓ} : Type ℓ → Type ℓ
Decode A = Reader → Option (A × Reader)

abbrev pub continue {ℓ κ} :
    {A : Type ℓ} {B : Type κ} → Option (A × Reader) → (A → Decode B) → Option (B × Reader)
continue none f = none
continue (some (a, r)) f = f a r

infixl 5 ◌>>=◌ ◌>>◌
unfoldable pub ◌>>=◌ {ℓ κ} : {A : Type ℓ} {B : Type κ} → Decode A → (A → Decode B) → Decode B
◌>>=◌ m f r = continue (m r) f

unfoldable pub ◌>>◌ {ℓ} : {B : Type ℓ} → Decode (Unit {0}) → Decode B → Decode B
unfolding ◌>>=◌
m >> k = m >>= λ _. k

unfoldable pub pure {ℓ} : {A : Type ℓ} → A → Decode A
pure a r = some (a, r)

-- An accessor of the reader, which never leaves the deserialiser.
unfoldable pub field {ℓ} : {A : Type ℓ} → (Reader → A × Reader) → Decode A
field read r = some (read r)

-- `if (!test) return false;`
unfoldable pub guard : Bool → Decode (Unit {0})
guard test r = if test then some (tt, r) else none

-- `if (!reader.ok()) return false;`, also as the last `return reader.ok();`.
unfoldable pub check_ok : Decode (Unit {0})
check_ok r = if r.ok then some (tt, r) else none

-- `reader.ok()` where its answer is used.
unfoldable pub is_ok : Decode Bool
is_ok r = some (r.ok, r)

-- `for (i = 0; i < count; ++i)`, each round pushing one element.
unfoldable pub repeat {ℓ} : {A : Type ℓ} → ℕ → Decode A → Decode (List A)
unfolding ◌>>=◌ pure
repeat zero m = pure []
repeat (suc count) m = m >>= λ x. repeat count m >>= λ xs. pure (x ∷ xs)

abbrev pub result {ℓ} : {A : Type ℓ} → Option (A × Reader) → Option A
result none = none
result (some (a, r)) = some a

-- A deserialiser applied to a payload. Bytes after the message are ignored.
unfoldable pub decode {ℓ} : {A : Type ℓ} → Decode A → List ℕ → Option A
unfolding open_reader
decode m bytes = result (m (open_reader bytes))
