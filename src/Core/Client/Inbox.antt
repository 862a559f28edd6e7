-- ===== src/Core/Client/Inbox.antt =====
-- The inboxes of NetSyncClient in src/core/netsync_client.cpp, which the network thread fills.
use styly_net_sync_godot.Base.{
  ℕ, ◌<◌, ◌-◌, ◌%◌, ◌^◌, ◌≤◌, ◌≡◌, some, List, [], ◌∷◌, ◌++◌, leb, leb→le, leb→lt, suc, sym, ap,
  ◌∙◌, subst, inl, inr, Bool-cases, append-nil, append_assoc, length-append, length-drop,
  drop-append_le, drop-drop, length, drop, if◌then◌else◌, arith,
}
use styly_net_sync_godot.Transport.Receive.{TransportLane, control, room_pose, room_objects}
use styly_net_sync_godot.Core.Client.{Client}

abbrev pub control_inbox_max : ℕ
control_inbox_max = 4096

-- The last 4096 of a list.
abbrev pub newest : List (List ℕ) → List (List ℕ)
newest xs = drop (length xs - control_inbox_max) xs

length-newest : (xs : List (List ℕ)) → length (newest xs) ≤ control_inbox_max
length-newest xs = omega (arith, length-drop (length xs - control_inbox_max) xs)

newest_short : (xs : List (List ℕ)) → length xs ≤ control_inbox_max → newest xs ≡ xs
newest_short xs h = ap (λ k. drop k xs) (zero_of (length xs) h)
  where
    zero_of : (n : ℕ) → n ≤ 4096 → n - 4096 ≡ 0
    zero_of n h = omega arith

newest-append : (xs ys : List (List ℕ)) → newest (newest xs ++ ys) ≡ newest (xs ++ ys)
newest-append xs ys =
    let k = length xs - control_inbox_max in
    let moved : drop k xs ++ ys ≡ drop k (xs ++ ys) = sym (drop-append_le k xs ys (omega arith)) in
    ap newest moved
    ∙ sym (drop-drop k (length (drop k (xs ++ ys)) - control_inbox_max) (xs ++ ys))
    ∙ ap (λ j. drop j (xs ++ ys)) (omega (arith, length-drop k (xs ++ ys), length-append xs ys))

module _ {W : Type 0} where
  unfoldable pub handle_payload : TransportLane → List ℕ → Client W → Client W
  handle_payload control payload c =
      if leb control_inbox_max (length c.control_inbox)
      then record c {
        control_inbox = drop 1 c.control_inbox ++ (payload ∷ []);
        control_inbox_dropped = suc c.control_inbox_dropped % 2 ^ 64;
      }
      else record c { control_inbox = c.control_inbox ++ (payload ∷ []) }
  handle_payload room_pose payload c = record c { latest_room_pose = some payload }
  handle_payload room_objects payload c = record c { latest_room_objects = some payload }

  -- The control messages that arrive one after the other.
  abbrev pub receive_all : List (List ℕ) → Client W → Client W
  receive_all [] c = c
  receive_all (payload ∷ payloads) c = receive_all payloads (handle_payload control payload c)

  handle_payload-newest :
      (payload : List ℕ) (c : Client W)
      → length c.control_inbox ≤ control_inbox_max
      → (handle_payload control payload c).control_inbox
        ≡ newest (c.control_inbox ++ (payload ∷ []))
  unfolding handle_payload
  handle_payload-newest payload c h =
      elim (Bool-cases (leb control_inbox_max (length c.control_inbox))) [
        | inl full ↦
            let n : control_inbox_max ≤ length c.control_inbox = leb→le _ _ full in
            let all = c.control_inbox ++ (payload ∷ []) in
            let one : 1 ≡ length all - control_inbox_max =
              omega (arith, length-append c.control_inbox (payload ∷ [])) in
            rw full (
              sym (drop-append_le 1 c.control_inbox (payload ∷ []) (omega arith))
              ∙ ap (λ k. drop k all) one)
        | inr room ↦
            let n : length c.control_inbox < control_inbox_max = leb→lt _ _ room in
            rw room (
              sym (
                newest_short (c.control_inbox ++ (payload ∷ []))
                  (omega (arith, length-append c.control_inbox (payload ∷ [])))))
      ]

  -- Whatever control messages arrive, the inbox holds the newest 4096 of what was in it and of
  -- them, in the order of their arrival, if it held no more than that before.
  pub receive_all-newest :
      (payloads : List (List ℕ)) (c : Client W)
      → length c.control_inbox ≤ control_inbox_max
      → ((receive_all payloads c).control_inbox ≡ newest (c.control_inbox ++ payloads))
        × (length (receive_all payloads c).control_inbox ≤ control_inbox_max)
  receive_all-newest [] c h =
      (rw (append-nil c.control_inbox) (sym (newest_short c.control_inbox h)), h)
  receive_all-newest (payload ∷ payloads) c h =
      let c' = handle_payload control payload c in
      let one = handle_payload-newest payload c h in
      let (all, few) = receive_all-newest payloads c' (
        subst (λ xs. length xs ≤ control_inbox_max) (sym one)
          (length-newest (c.control_inbox ++ (payload ∷ [])))) in
      (
        all
            ∙ ap (λ xs. newest (xs ++ payloads)) one
            ∙ newest-append (c.control_inbox ++ (payload ∷ [])) payloads
            ∙ ap newest (append_assoc c.control_inbox (payload ∷ []) payloads),
        few,
      )
