-- ===== src/Wire/Decode/Stable.antt =====
-- A deserialiser that succeeded does not change its answer when more bytes follow. With the round
-- trip this refuses every payload that is cut short.
use styly_net_sync_godot.Base.{
  ℕ, zero, suc, ◌+◌, ◌%◌, ◌^◌, ◌≤◌, ◌<◌, ◌≡◌, refl, sym, ap, ◌∙◌, ◌⊎◌, inl, inr, Bool, true, false,
  Option, none, some, List, [], ◌∷◌, ◌++◌, arith, length, get_or, take, drop, append-nil,
  length-append, length-drop, drop-append_le, take-append_le, Option-cases, subst,
}
use styly_net_sync_godot.Base.Int.{pos}
use styly_net_sync_godot.Wire.Reader.{
  Reader, open_reader, require, accept, read_field, le16, le24, le32, le64, read_u8, read_u16,
  read_u32, signed16, read_i16, signed24, read_i24, read_f64, read_bytes, read_string8,
  read_string16,
}
use styly_net_sync_godot.Wire.Decode.{
  Decode, continue, ◌>>=◌, ◌>>◌, pure, field, guard, check_ok, is_ok, repeat, decode,
}
use styly_net_sync_godot.Wire.Decode.RoundTrip.{At, Reads}

abbrev pub extend : List ℕ → Reader → Reader
extend more r = record r { bytes = r.bytes ++ more }

abbrev pub IsWithin : Reader → Type 0
IsWithin r = (r.offset ≤ length r.bytes) × (length r.bytes < 2 ^ 64)

pub record Stable {ℓ} {A : Type ℓ} (m : Decode A) : Type ℓ where
  -- A reader that is sound at the end was sound from the start.
  pub latch : (r r' : Reader) (a : A) → m r ≡ some (a, r') → r'.ok ≡ true → r.ok ≡ true
  pub extends :
      (r r' : Reader) (a : A) (more : List ℕ)
      → m r ≡ some (a, r')
      → r'.ok ≡ true
      → IsWithin r
      → length (r.bytes ++ more) < 2 ^ 64
      → (m (extend more r) ≡ some (a, extend more r')) × IsWithin r' × (r'.bytes ≡ r.bytes)

-- `m` leaves the reader sound whenever it succeeds.
pub record Ends {ℓ} {A : Type ℓ} (m : Decode A) : Type ℓ where
  pub sound : (r r' : Reader) (a : A) → m r ≡ some (a, r') → r'.ok ≡ true

-- `require` passes where the bytes are there, and otherwise latches the failure.
pub require_pass :
    (count : ℕ) (r : Reader)
    → r.ok ≡ true
    → r.offset + count ≤ length r.bytes
    → length r.bytes < 2 ^ 64
    → require count r ≡ (true, r)
unfolding require
require_pass count r ok enough fits = ground arith

pub require_cases :
    (count : ℕ) (r : Reader)
    → IsWithin r
    → count < 2 ^ 63
    → ((require count r ≡ (true, r)) × (r.ok ≡ true) × (r.offset + count ≤ length r.bytes))
      ⊎ (require count r ≡ (false, record r { ok = false }))
unfolding require
require_cases count r w small = ground arith

module _ {ℓ} {A : Type ℓ} (default : A) (value : List ℕ → A) (count : ℕ) where
  read_field-latch : (r : Reader) → (read_field count default value r).1.ok ≡ true → r.ok ≡ true
  unfolding read_field require accept
  read_field-latch r h = ground arith

  -- A field that was there is still there, in the same place.
  field-append :
      (offset : ℕ) (bs more : List ℕ)
      → offset + count ≤ length bs
      → take count (drop offset (bs ++ more)) ≡ take count (drop offset bs)
  field-append offset bs more h =
      ap (take count) (drop-append_le offset bs more (omega arith))
      ∙ take-append_le count (drop offset bs) more (omega (arith, length-drop offset bs))

  read_field-extends :
      (r : Reader) (more : List ℕ)
      → (read_field count default value r).1.ok ≡ true
      → IsWithin r
      → length (r.bytes ++ more) < 2 ^ 64
      → count < 2 ^ 63
      → (read_field count default value (extend more r) ≡ (
        (read_field count default value r).0,
        extend more (read_field count default value r).1,
      ))
        × IsWithin (read_field count default value r).1
        × ((read_field count default value r).1.bytes ≡ r.bytes)
  unfolding read_field accept
  read_field-extends r more h w fits small = elim (require_cases count r w small) [
    | inl (pass, ok, enough) ↦ rw pass (
        rw
          (
            require_pass count (extend more r) ok (omega (arith, length-append r.bytes more)) fits,
            field-append r.offset r.bytes more enough,
          )
          (refl, (enough, w.1), refl))
    | inr fail ↦ absurd (fails fail)
  ]
    where
      fails : require count r ≡ (false, record r { ok = false }) → ⊥
      fails fail = cc

module _ {ℓ} {A : Type ℓ} where
  Stable-read_field :
      (default : A) (value : List ℕ → A) (count : ℕ)
      → count < 2 ^ 63
      → Stable (field (read_field count default value))
  unfolding field
  Stable-read_field default value count small = record {
    latch = λ r r' a e h. read_field-latch default value count r (ground (arith, e, h));
    extends = λ r r' a more e h w fits.
        ground (
          arith,
          read_field-extends default value count r more (ground (arith, e, h)) w fits small,
        );
  }

  pub Stable-pure : (a : A) → Stable (pure a)
  unfolding pure
  Stable-pure a = record {
    latch = λ r r' b e h. ground (arith, e, h);
    extends = λ r r' b more e h w fits. ground (arith, e, h);
  }

pub Stable-check_ok : Stable check_ok
unfolding check_ok
Stable-check_ok = record {
  latch = λ r r' b e h. ground (arith, e, h);
  extends = λ r r' b more e h w fits. ground (arith, e, h);
}

pub Stable-is_ok : Stable is_ok
unfolding is_ok
Stable-is_ok = record {
  latch = λ r r' b e h. ground (arith, e, h);
  extends = λ r r' b more e h w fits. ground (arith, e, h);
}

pub Stable-guard : (test : Bool) → Stable (guard test)
unfolding guard
Stable-guard test = record {
  latch = λ r r' b e h. ground (arith, e, h);
  extends = λ r r' b more e h w fits. ground (arith, e, h);
}

-- Inversion of a sequence that succeeded.
continue-eq-some {ℓ κ} :
    {A : Type ℓ} {B : Type κ} (o : Option (A × Reader)) (f : A → Decode B) (r'' : Reader) (b : B)
    → continue o f ≡ some (b, r'')
    → (a : A) × (r' : Reader) × (o ≡ some (a, r')) × (f a r' ≡ some (b, r''))
continue-eq-some none f r'' b h = cc
continue-eq-some (some (a, r')) f r'' b h = (a, r', refl, h)

>>=-eq-some {ℓ κ} :
    {A : Type ℓ} {B : Type κ} (m : Decode A) (f : A → Decode B) (r r'' : Reader) (b : B)
    → (m >>= f) r ≡ some (b, r'')
    → (a : A) × (r' : Reader) × (m r ≡ some (a, r')) × (f a r' ≡ some (b, r''))
unfolding ◌>>=◌
>>=-eq-some m f r r'' b h = continue-eq-some (m r) f r'' b h

module _ {ℓ κ} {A : Type ℓ} {B : Type κ} (m : Decode A) (f : A → Decode B) where
  -- The second part has to be stable only at the values that the first can give.
  Stable-bind_on :
      (P : A → Type 0)
      → ((r r' : Reader) (a : A) → m r ≡ some (a, r') → P a)
      → Stable m
      → ((a : A) → P a → Stable (f a))
      → Stable (m >>= f)
  unfolding ◌>>=◌
  Stable-bind_on P gives sm sf = record {
    latch = λ r r'' b e h.
        let (a, r', e1, e2) = >>=-eq-some m f r r'' b e in
        sm.latch r r' a e1 ((sf a (gives r r' a e1)).latch r' r'' b e2 h);
    extends = λ r r'' b more e h w fits.
        let (a, r', e1, e2) = >>=-eq-some m f r r'' b e in
        let sound : r'.ok ≡ true = (sf a (gives r r' a e1)).latch r' r'' b e2 h in
        let (x1, w1, b1) = sm.extends r r' a more e1 sound w fits in
        let (x2, w2, b2) =
          (sf a (gives r r' a e1)).extends r' r'' b more e2 h w1
            (subst (λ bs. length (bs ++ more) < 2 ^ 64) (sym b1) fits) in
        (rw x1 x2, w2, b2 ∙ b1);
  }

  pub Stable-bind : Stable m → ((a : A) → Stable (f a)) → Stable (m >>= f)
  Stable-bind sm sf = Stable-bind_on (λ _. Unit {0}) (λ _ _ _ _. tt) sm (λ a _. sf a)

  pub Ends-bind : ((a : A) → Ends (f a)) → Ends (m >>= f)
  Ends-bind ends = record {
    sound =
        λ r r'' b e. let (a, r', e1, e2) = >>=-eq-some m f r r'' b e in (ends a).sound r' r'' b e2;
  }

pub Stable-then {ℓ} :
    {B : Type ℓ} (m : Decode (Unit {0})) (k : Decode B) → Stable m → Stable k → Stable (m >> k)
unfolding ◌>>◌
Stable-then m k sm sk = Stable-bind m (λ _. k) sm (λ _. sk)

pub Ends-then {ℓ} : {B : Type ℓ} (m : Decode (Unit {0})) (k : Decode B) → Ends k → Ends (m >> k)
unfolding ◌>>◌
Ends-then m k ek = Ends-bind m (λ _. k) (λ _. ek)

pub Ends-check_ok {ℓ} : {A : Type ℓ} (a : A) → Ends (check_ok >> pure a)
unfolding check_ok pure ◌>>◌ ◌>>=◌
Ends-check_ok a = record { sound = λ r r' b e. ground (arith, e) }

pub Stable-u8 : Stable (field read_u8)
unfolding read_u8
Stable-u8 = Stable-read_field 0 (λ bs. get_or bs 0 0 % 2 ^ 8) 1 (omega arith)

pub Stable-u16 : Stable (field read_u16)
unfolding read_u16
Stable-u16 = Stable-read_field 0 le16 2 (omega arith)

pub Stable-u32 : Stable (field read_u32)
unfolding read_u32
Stable-u32 = Stable-read_field 0 le32 4 (omega arith)

pub Stable-i24 : Stable (field read_i24)
unfolding read_i24
Stable-i24 = Stable-read_field (pos 0) (λ bs. signed24 (le24 bs)) 3 (omega arith)

pub Stable-f64 : Stable (field read_f64)
unfolding read_f64
Stable-f64 = Stable-read_field 0 le64 8 (omega arith)

pub Stable-i16 : Stable (field read_i16)
unfolding read_i16 field ◌>>=◌ pure
Stable-i16 =
    Stable-bind (field read_u16) (λ w. pure (signed16 w)) Stable-u16 (λ w. Stable-pure (signed16 w))

Stable-bytes : (count : ℕ) → count < 2 ^ 63 → Stable (field (read_bytes count))
unfolding read_bytes
Stable-bytes count small = Stable-read_field [] (λ bs. bs) count small

read_u8-lt : (r r' : Reader) (v : ℕ) → field read_u8 r ≡ some (v, r') → v < 2 ^ 63
unfolding field read_u8 read_field require accept
read_u8-lt r r' v h = ground (arith, h)

read_u16-lt : (r r' : Reader) (v : ℕ) → field read_u16 r ≡ some (v, r') → v < 2 ^ 63
unfolding field read_u16 read_field require accept
read_u16-lt r r' v h = ground (arith, h)

pub Stable-string8 : Stable (field read_string8)
unfolding read_string8 field ◌>>=◌
Stable-string8 =
    Stable-bind_on (field read_u8) (λ size. field (read_bytes size)) (λ v. v < 2 ^ 63) read_u8-lt
      Stable-u8 Stable-bytes

pub Stable-string16 : Stable (field read_string16)
unfolding read_string16 field ◌>>=◌
Stable-string16 =
    Stable-bind_on (field read_u16) (λ size. field (read_bytes size)) (λ v. v < 2 ^ 63) read_u16-lt
      Stable-u16 Stable-bytes

pub Stable-repeat {ℓ} : {A : Type ℓ} (count : ℕ) (m : Decode A) → Stable m → Stable (repeat count m)
unfolding repeat
Stable-repeat zero m sm = Stable-pure []
Stable-repeat (suc count) m sm =
    Stable-bind m _ sm
      (λ x. Stable-bind (repeat count m) _ (Stable-repeat count m sm) (λ xs. Stable-pure (x ∷ xs)))

-- The reader at the end, if there is one.
abbrev stand {ℓ} : {A : Type ℓ} → Option (A × Reader) → Reader
stand none = open_reader []
stand (some (a, r)) = r

-- No reader stands both at the end of the longer payload and within the shorter one.
not_both :
    (r' r'' : Reader) (back : List ℕ) (x : ℕ)
    → r'' ≡ extend (x ∷ back) r'
    → r'.offset ≤ length r'.bytes
    → ¬ At r'' []
not_both r' r'' back x e w at = omega (
  arith,
  ap (λ (r : Reader). r.offset) e,
  ap (λ (r : Reader). length r.bytes) e,
  length-append r'.bytes (x ∷ back),
  ap length at.ahead,
  length-drop r''.offset r''.bytes,
)

-- A payload that is cut anywhere before its end is refused.
pub decode-cut {ℓ} :
    {A : Type ℓ} (m : Decode A) (front back : List ℕ) (x : ℕ) (a : A)
    → Stable m
    → Ends m
    → Reads m (front ++ (x ∷ back)) a
    → length (front ++ (x ∷ back)) < 2 ^ 64
    → decode m front ≡ none
unfolding decode open_reader
decode-cut m front back x a stable ends reads fits = elim (Option-cases (m (open_reader front))) [
  | inl e ↦ rw e
  | inr ((b, r'), e) ↦
      let (x1, w1, _) =
        stable.extends (open_reader front) r' b (x ∷ back) e (ends.sound _ r' b e)
          (omega arith, omega (arith, length-append front (x ∷ back))) fits in
      let (r'', ran, at) = reads.run (open_reader (front ++ (x ∷ back))) [] (record {
        sound = refl;
        fits = fits;
        within = omega arith;
        ahead = sym (append-nil (front ++ (x ∷ back)));
      }) in
      absurd (not_both r' r'' back x (ap stand (sym ran ∙ x1)) w1.0 at)
]

-- The rules that prove both of a deserialiser, from the order of its fields alone.
pub ruleset stable_rules = (
  Stable-bind, Stable-then, Stable-pure, Stable-check_ok, Stable-is_ok, Stable-guard, Stable-repeat,
  Stable-u8, Stable-u16, Stable-u32, Stable-i16, Stable-i24, Stable-f64, Stable-string8,
  Stable-string16, Ends-bind, Ends-then, Ends-check_ok,
)
