-- ===== src/Wire/Decode/RoundTrip.antt =====
-- `Reads m bs a`: standing before the bytes `bs`, whatever follows them, `m` succeeds with `a` and
-- stands behind them. One rule for each accessor, and one for each way to compose.
use styly_net_sync_godot.Base.{
  ℕ, ◌+◌, ◌*◌, ◌/◌, ◌%◌, ◌^◌, ◌≤◌, ◌<◌, ◌≡◌, refl, ap, ◌∙◌, Bool, true, false, if◌then◌else◌, some,
  List, [], ◌∷◌, ◌++◌, arith, ltb, length, get_or, take, drop, concat, All, append-nil,
  append_assoc, Bool-cases, inl, inr, ltb→le, length-append, length-take, length-drop, drop-drop,
  take-append, drop-append, take_all, subst, map,
}
use styly_net_sync_godot.Base.Int.{ℤ, pos, negsuc}
use styly_net_sync_godot.Wire.Utf8.{truncate_utf8_bytes}
use styly_net_sync_godot.Wire.Utf8.Truncation.{
  take-truncate_utf8_bytes, truncate_utf8_bytes_short, length-truncate_utf8_bytes,
}
use styly_net_sync_godot.Wire.Writer.{
  write_u8, write_u16, write_u32, to_u16, write_i16, clamp_i24, to_u24, write_i24, write_f64,
  write_string8, write_string16,
}
use styly_net_sync_godot.Wire.Reader.{
  Reader, open_reader, require, accept, read_field, le16, le24, le32, le64, read_u8, read_u16,
  read_u32, signed16, read_i16, signed24, read_i24, read_f64, read_bytes, read_string8,
  read_string16,
}
use styly_net_sync_godot.Wire.Decode.{
  Decode, ◌>>=◌, ◌>>◌, pure, field, guard, check_ok, is_ok, repeat, decode,
}

-- A sound reader that stands before `rest`.
pub record At (r : Reader) (rest : List ℕ) : Type 0 where
  pub sound : r.ok ≡ true
  pub fits : length r.bytes < 2 ^ 64
  pub within : r.offset ≤ length r.bytes
  pub ahead : drop r.offset r.bytes ≡ rest

pub record Reads {ℓ} {A : Type ℓ} (m : Decode A) (bs : List ℕ) (a : A) : Type ℓ where
  pub run :
      (r : Reader) (rest : List ℕ)
      → At r (bs ++ rest)
      → (r' : Reader) × (m r ≡ some (a, r')) × At r' rest

require-At :
    (r : Reader) (bs rest : List ℕ)
    → At r (bs ++ rest)
    → (require (length bs) r ≡ (true, r)) × (r.offset + length bs ≤ length r.bytes)
unfolding require
require-At r bs rest h =
    let fact : length (drop r.offset r.bytes) ≡ length (bs ++ rest) = ap length h.ahead in
    let enough : r.offset + length bs ≤ length r.bytes =
      omega (arith, fact, length-drop r.offset r.bytes, length-append bs rest) in
    (ground (arith, enough, h.sound, h.fits), enough)

-- What an accessor of a fixed width does.
pub read_field-At {ℓ} :
    {A : Type ℓ} (default : A) (value : List ℕ → A) (r : Reader) (bs rest : List ℕ)
    → At r (bs ++ rest)
    → (read_field (length bs) default value r
        ≡ (value bs, record r { offset = r.offset + length bs }))
      × At (record r { offset = r.offset + length bs }) rest
unfolding read_field accept
read_field-At default value r bs rest h =
    let (accepts, enough) = require-At r bs rest h in
    (
      rw (accepts, h.ahead, take-append bs rest),
      record {
        sound = h.sound;
        fits = h.fits;
        within = enough;
        ahead =
            drop-drop r.offset (length bs) r.bytes
            ∙ ap (drop (length bs)) h.ahead
            ∙ drop-append bs rest;
      },
    )

-- A field of a fixed width reads the value of its bytes.
Reads-read_field {ℓ} :
    {A : Type ℓ} (default : A) (value : List ℕ → A) (bs : List ℕ)
    → Reads (field (read_field (length bs) default value)) bs (value bs)
unfolding field
Reads-read_field default value bs = record {
  run = λ r rest h.
      let (reads, after) = read_field-At default value r bs rest h in
      (record r { offset = r.offset + length bs }, rw reads, after);
}

module _ {ℓ κ} {A : Type ℓ} {B : Type κ} where
  pub Reads-bind :
      {m : Decode A} (f : A → Decode B) {bs cs : List ℕ} {a : A} {b : B}
      → Reads m bs a
      → Reads (f a) cs b
      → Reads (m >>= f) (bs ++ cs) b
  unfolding ◌>>=◌
  Reads-bind f {bs = bs} {cs = cs} hm hf = record {
    run = λ r rest h.
        let (r', ran, after) = hm.run r (cs ++ rest) (subst (At r) (append_assoc bs cs rest) h) in
        let (r'', ran', after') = hf.run r' rest after in (r'', rw ran ran', after');
  }

pub Reads-then' {ℓ} :
    {B : Type ℓ} {m : Decode (Unit {0})} {k : Decode B} {bs cs : List ℕ} {b : B}
    → Reads m bs tt
    → Reads k cs b
    → Reads (m >> k) (bs ++ cs) b
unfolding ◌>>◌
Reads-then' {k = k} hm hk = Reads-bind (λ _. k) hm hk

-- A test of what was read takes no bytes.
pub Reads-then {ℓ} :
    {B : Type ℓ} {m : Decode (Unit {0})} {k : Decode B} {cs : List ℕ} {b : B}
    → Reads m [] tt
    → Reads k cs b
    → Reads (m >> k) cs b
unfolding ◌>>◌
Reads-then {k = k} hm hk = Reads-bind (λ _. k) hm hk

pub Reads-pure {ℓ} : {A : Type ℓ} (a : A) → Reads (pure a) [] a
unfolding pure
Reads-pure a = record { run = λ r rest h. (r, refl, h) }

pub Reads-check_ok : Reads check_ok [] tt
unfolding check_ok
Reads-check_ok = record { run = λ r rest h. (r, rw h.sound, h) }

pub Reads-is_ok : Reads is_ok [] true
unfolding is_ok
Reads-is_ok = record { run = λ r rest h. (r, rw h.sound refl, h) }

-- A part that is there only if a flag says so.
pub Reads-when {ℓ} :
    {A : Type ℓ} (valid : Bool) {m : Decode A} (default : A) {bs : List ℕ} {a : A}
    → (valid ≡ true → Reads m bs a)
    → Reads
        (if valid then m else pure default)
        (if valid then bs else [])
        (if valid then a else default)
Reads-when true default h = h refl
Reads-when false default h = Reads-pure default

pub Reads-guard : {test : Bool} → test ≡ true → Reads (guard test) [] tt
unfolding guard
Reads-guard e = record { run = λ r rest h. (r, rw e, h) }

-- The two fields of a round trip: what stands written is what is read.
pub Reads-subst {ℓ} :
    {A : Type ℓ} {m : Decode A} {bs cs : List ℕ} {a b : A}
    → Reads m bs a
    → bs ≡ cs
    → a ≡ b
    → Reads m cs b
Reads-subst {m = m} {bs = bs} {b = b} h p q = subst (λ x. Reads m x b) p (subst (Reads m bs) q h)

pub Reads-u8 : (v : ℕ) → v < 2 ^ 8 → Reads (field read_u8) (write_u8 v) v
unfolding read_u8 write_u8
Reads-u8 v h =
    Reads-subst (Reads-read_field 0 (λ bs. get_or bs 0 0 % 2 ^ 8) (v % 256 ∷ [])) refl (omega arith)

pub Reads-u16 : (v : ℕ) → v < 2 ^ 16 → Reads (field read_u16) (write_u16 v) v
unfolding read_u16 write_u16
Reads-u16 v h =
    Reads-subst (Reads-read_field 0 le16 (v % 256 ∷ v / 256 % 256 ∷ [])) refl (omega arith)

pub Reads-u32 : (v : ℕ) → v < 2 ^ 32 → Reads (field read_u32) (write_u32 v) v
unfolding read_u32 write_u32
Reads-u32 v h = Reads-subst (Reads-read_field 0 le32 (write_u32 v)) refl (omega arith)

pub Reads-f64 : (v : ℕ) → v < 2 ^ 64 → Reads (field read_f64) (write_f64 v) v
unfolding read_f64 write_f64
Reads-f64 v h = Reads-subst (Reads-read_field 0 le64 (write_f64 v)) refl (omega arith)

signed24-to_u24 : (v : ℤ) → signed24 (to_u24 (clamp_i24 v)) ≡ clamp_i24 v
signed24-to_u24 (pos n) = ground arith
signed24-to_u24 (negsuc n) = ground arith

to_u24-lt : (v : ℤ) → to_u24 v < 2 ^ 24
to_u24-lt (pos n) = omega arith
to_u24-lt (negsuc n) = omega arith

le24_lem : (u : ℕ) → u < 2 ^ 24 → u % 256 + u / 2 ^ 8 % 256 * 2 ^ 8 + u / 2 ^ 16 % 256 * 2 ^ 16 ≡ u
le24_lem u h = omega arith

-- A 24-bit field reads back what the writer clamped.
pub Reads-i24 : (v : ℤ) → Reads (field read_i24) (write_i24 v) (clamp_i24 v)
unfolding read_i24 write_i24
Reads-i24 v =
    Reads-subst (Reads-read_field (pos 0) (λ bs. signed24 (le24 bs)) (write_i24 v)) refl
      (ap signed24 (le24_lem (to_u24 (clamp_i24 v)) (to_u24-lt (clamp_i24 v))) ∙ signed24-to_u24 v)

-- The integers of an `int16_t`.
abbrev pub IsI16 : ℤ → Type 0
IsI16 (pos n) = n < 2 ^ 15
IsI16 (negsuc n) = n < 2 ^ 15

pub to_u16-lt : (v : ℤ) → to_u16 v < 2 ^ 16
to_u16-lt (pos n) = omega arith
to_u16-lt (negsuc n) = omega arith

signed16-to_u16 : (v : ℤ) → IsI16 v → signed16 (to_u16 v) ≡ v
signed16-to_u16 (pos n) h = ground arith
signed16-to_u16 (negsuc n) h = ground arith

pub Reads-i16 : (v : ℤ) → IsI16 v → Reads (field read_i16) (write_i16 v) v
unfolding read_i16 write_i16 field ◌>>=◌ pure
Reads-i16 v h =
    Reads-subst
      (Reads-bind (λ w. pure (signed16 w)) (Reads-u16 (to_u16 v) (to_u16-lt v))
        (Reads-pure (signed16 (to_u16 v))))
      (append-nil (write_u16 (to_u16 v))) (signed16-to_u16 v h)

pub Reads-bytes : (bs : List ℕ) → Reads (field (read_bytes (length bs))) bs bs
unfolding read_bytes
Reads-bytes bs = Reads-read_field [] (λ xs. xs) bs

length-take-within : (n : ℕ) (v : List ℕ) → n ≤ length v → length (take n v) ≡ n
length-take-within n v h = omega (arith, length-take n v)

-- A string of at most 255 bytes comes back whole, and any string as it was truncated.
pub Reads-string8_truncated :
    (v : List ℕ) → Reads (field read_string8) (write_string8 v) (truncate_utf8_bytes v 255)
unfolding read_string8 write_string8 field ◌>>=◌ write_u8
Reads-string8_truncated v =
    let t = truncate_utf8_bytes v 255 in
    Reads-bind (λ size. field (read_bytes size))
      (Reads-u8 (length t) (omega (arith, length-truncate_utf8_bytes v 255))) (Reads-bytes t)

pub Reads-string8 : (v : List ℕ) → length v ≤ 255 → Reads (field read_string8) (write_string8 v) v
Reads-string8 v h = Reads-subst (Reads-string8_truncated v) refl (truncate_utf8_bytes_short v 255 h)

string16_bytes :
    (v : List ℕ)
    → write_u16 (length (truncate_utf8_bytes v 65535)) ++ truncate_utf8_bytes v 65535
      ≡ write_string16 v
unfolding write_string16 write_u16
string16_bytes v = elim (Bool-cases (ltb 65535 (length v))) [
  | inl long ↦
      let t = truncate_utf8_bytes v 65535 in
      let small : length t % 2 ^ 16 ≡ length t =
        omega (arith, length-truncate_utf8_bytes v 65535) in
      rw (long, small, take-truncate_utf8_bytes v 65535)
  | inr short ↦
      let small : length v % 2 ^ 16 ≡ length v = omega (arith, ltb→le _ _ short) in
      rw (
        short,
        truncate_utf8_bytes_short v 65535 (ltb→le _ _ short),
        small,
        take_all (length v) v (omega arith),
      )
]

pub Reads-string16_truncated :
    (v : List ℕ) → Reads (field read_string16) (write_string16 v) (truncate_utf8_bytes v 65535)
unfolding read_string16 field ◌>>=◌
Reads-string16_truncated v =
    let t = truncate_utf8_bytes v 65535 in
    Reads-subst
      (Reads-bind (λ size. field (read_bytes size))
        (Reads-u16 (length t) (omega (arith, length-truncate_utf8_bytes v 65535))) (Reads-bytes t))
      (string16_bytes v) refl

pub Reads-string16 :
    (v : List ℕ) → length v ≤ 65535 → Reads (field read_string16) (write_string16 v) v
Reads-string16 v h =
    Reads-subst (Reads-string16_truncated v) refl (truncate_utf8_bytes_short v 65535 h)

-- A counted loop reads the elements that were written one after the other; `read` is what becomes
-- of an element on the wire.
pub Reads-repeat-map {ℓ} :
    {A : Type ℓ} (m : Decode A) (write : A → List ℕ) (read : A → A) (Valid : A → Type 0)
    (xs : List A)
    → ((x : A) → Valid x → Reads m (write x) (read x))
    → All Valid xs
    → Reads (repeat (length xs) m) (concat (map write xs)) (map read xs)
unfolding repeat
Reads-repeat-map m write read Valid [] each valid = Reads-pure []
Reads-repeat-map m write read Valid (x ∷ xs) each valid = Reads-bind _ (each x valid.0) (
    Reads-subst
      (Reads-bind _ (Reads-repeat-map m write read Valid xs each valid.1)
        (Reads-pure (read x ∷ map read xs)))
      (append-nil (concat (map write xs))) refl)

map_id {ℓ} : {A : Type ℓ} (xs : List A) → map (λ x. x) xs ≡ xs
map_id [] = refl
map_id (x ∷ xs) = ap (◌∷◌ x) (map_id xs)

pub Reads-repeat {ℓ} :
    {A : Type ℓ} (m : Decode A) (write : A → List ℕ) (Valid : A → Type 0) (xs : List A)
    → ((x : A) → Valid x → Reads m (write x) x)
    → All Valid xs
    → Reads (repeat (length xs) m) (concat (map write xs)) xs
Reads-repeat m write Valid xs each valid =
    Reads-subst (Reads-repeat-map m write (λ x. x) Valid xs each valid) refl (map_id xs)

-- A payload that begins with what was written is decoded.
pub Reads-decode {ℓ} :
    {A : Type ℓ} (m : Decode A) {bs : List ℕ} {a : A} (rest : List ℕ)
    → Reads m bs a
    → length (bs ++ rest) < 2 ^ 64
    → decode m (bs ++ rest) ≡ some a
unfolding decode
Reads-decode m {bs = bs} rest h fits =
    let (r', ran, _) =
      h.run (open_reader (bs ++ rest)) rest
        (record { sound = refl; fits = fits; within = omega arith; ahead = refl }) in
    rw ran
