-- ===== src/Transport/Topics.antt =====
-- The topics by which ZmqTransport in src/transport/zmq_transport.cpp tells the avatar poses and the
-- object poses of its room. A topic is `none` where the frame has no data pointer, and is then empty.
use styly_net_sync_godot.Base.{
  ℕ, ◌+◌, ◌≡◌, ◌↔◌, refl, sym, ap, ◌∙◌, arith, Bool, true, false, not, ◌&&◌, Option, none, some,
  List, [], ◌∷◌, ◌++◌, ◌==◌, if◌then◌else◌, length, take, drop, length-append, subst, Bool-cases,
  inl, inr, take-append, drop-append, take-append-drop,
}
use styly_net_sync_godot.Base.Keys.{bytes_eq, bytes_eq_iff}

-- kObjectTopicSuffix: a zero byte and "obj".
abbrev pub object_topic_suffix : List ℕ
object_topic_suffix = 0 ∷ 111 ∷ 98 ∷ 106 ∷ []

unfoldable pub is_avatar_topic : Option (List ℕ) → List ℕ → Bool
is_avatar_topic none room_id = 0 == length room_id
is_avatar_topic (some topic) room_id =
    if not (length topic == length room_id)
    then false
    else if length topic == 0
    then true
    else bytes_eq topic room_id

-- The two `memcmp` calls compare the room id and the suffix, at the offset where each belongs.
unfoldable pub is_object_topic : Option (List ℕ) → List ℕ → Bool
is_object_topic none room_id = false
is_object_topic (some topic) room_id =
    if not (length topic == length room_id + 4)
    then false
    else if not (length room_id == 0) && not (bytes_eq (take (length room_id) topic) room_id)
    then false
    else bytes_eq (drop (length room_id) topic) object_topic_suffix

bytes_eq-length : (xs ys : List ℕ) → bytes_eq xs ys ≡ true → length xs ≡ length ys
bytes_eq-length xs ys h = ap length ((bytes_eq_iff xs ys).0 h)

empty_length : (xs : List ℕ) → length xs ≡ 0 → xs ≡ []
empty_length [] h = refl
empty_length (x ∷ xs) h = absurd (omega arith)

no_room : (topic room_id : List ℕ) → length room_id ≡ 0 → take (length room_id) topic ≡ room_id
no_room topic [] h = refl
no_room topic (x ∷ room_id) h = absurd (omega arith)

parts :
    (topic room_id suffix : List ℕ)
    → take (length room_id) topic ≡ room_id
    → drop (length room_id) topic ≡ suffix
    → topic ≡ room_id ++ suffix
parts topic room_id suffix front back =
    sym (take-append-drop (length room_id) topic)
    ∙ (ap (λ xs. xs ++ drop (length room_id) topic) front ∙ ap (λ ys. room_id ++ ys) back)

is_avatar_topic-eq :
    (topic room_id : List ℕ) → is_avatar_topic (some topic) room_id ≡ true → topic ≡ room_id
unfolding is_avatar_topic
is_avatar_topic-eq topic room_id h =
    ground (arith, bytes_eq_iff topic room_id, empty_length topic, empty_length room_id)

is_avatar_topic_self : (room_id : List ℕ) → is_avatar_topic (some room_id) room_id ≡ true
unfolding is_avatar_topic
is_avatar_topic_self room_id = ground (arith, (bytes_eq_iff room_id room_id).1 refl)

is_object_topic-eq :
    (topic room_id : List ℕ)
    → is_object_topic (some topic) room_id ≡ true
    → topic ≡ room_id ++ object_topic_suffix
unfolding is_object_topic
is_object_topic-eq topic room_id h = ground (
  arith,
  bytes_eq_iff (take (length room_id) topic) room_id,
  bytes_eq_iff (drop (length room_id) topic) object_topic_suffix,
  no_room topic room_id,
  parts topic room_id object_topic_suffix,
)

is_object_topic_self :
    (room_id : List ℕ) → is_object_topic (some (room_id ++ object_topic_suffix)) room_id ≡ true
unfolding is_object_topic
is_object_topic_self room_id =
    rw (take-append room_id object_topic_suffix, drop-append room_id object_topic_suffix)
      (ground
        (arith, length-append room_id object_topic_suffix, (bytes_eq_iff room_id room_id).1 refl))

-- A topic is that of the avatar poses of a room exactly if it is the room's id, and that of its
-- object poses exactly if it is the id followed by the suffix, and it is never both.
pub room_topics :
    (topic room_id : List ℕ)
    → ((is_avatar_topic (some topic) room_id ≡ true) ↔ (topic ≡ room_id))
      × ((is_object_topic (some topic) room_id ≡ true) ↔ (topic ≡ room_id ++ object_topic_suffix))
      × ((is_avatar_topic (some topic) room_id && is_object_topic (some topic) room_id) ≡ false)
room_topics topic room_id = (
  (
    is_avatar_topic-eq topic room_id,
    λ e.
        subst (λ t. is_avatar_topic (some t) room_id ≡ true) (sym e) (is_avatar_topic_self room_id),
  ),
  (
    is_object_topic-eq topic room_id,
    λ e.
        subst (λ t. is_object_topic (some t) room_id ≡ true) (sym e) (is_object_topic_self room_id),
  ),
  elim (Bool-cases (is_avatar_topic (some topic) room_id)) [
    | inr other ↦ rw other
    | inl avatar ↦ elim (Bool-cases (is_object_topic (some topic) room_id)) [
      | inr other ↦ rw (avatar, other)
      | inl both ↦ absurd (
          omega (
            arith,
            ap length (
                sym (is_avatar_topic-eq topic room_id avatar)
                ∙ is_object_topic-eq topic room_id both),
            length-append room_id object_topic_suffix,
          ))
    ]
  ],
)
