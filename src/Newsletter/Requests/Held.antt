-- ===== src/Newsletter/Requests/Held.antt =====
-- A saved message and its save under the writes of app/internal/newsletter/service.go.
use morgenblau.Common.{
  ◌≡◌, ap, ◌∙◌, Bool, true, false, ◌&&◌, ◌||◌, not, List, [], ◌∷◌, String, ◌==◌, eq_iff, any,
  keep_if, arith, Bool-cases, inl, inr,
}
use morgenblau.Newsletter.{
  Message, Save, Mailbox, Outcome, update_where, is_saved, delete_unsaved, delete_stopped_unsaved,
  in_tx,
}

module _ (sid mid : String) where
  -- The message is there, with this save.
  abbrev pub is_held : Mailbox → Bool
  is_held box =
      any (λ m. m.id == mid) box.messages && any (λ s. s.id == sid && s.message_id == mid) box.saves

  abbrev pub Held : Outcome × Mailbox → Type 0
  Held (outcome, box) = is_held box ≡ true

  pub in_tx_keeps :
      (commits : Bool) (after before : Mailbox)
      → is_held before ≡ true
      → is_held after ≡ true
      → Held (in_tx commits after before)
  in_tx_keeps true after before h h' = h'
  in_tx_keeps false after before h h' = h

  pub kept_message :
      (test : Message → Bool) (messages : List Message)
      → ((m : Message) → (m.id == mid) ≡ true → test m ≡ true)
      → any (λ m. m.id == mid) messages ≡ true
      → any (λ m. m.id == mid) (keep_if test messages) ≡ true
  kept_message test [] keep h = h
  kept_message test (m ∷ messages) keep h = ground (arith, kept_message test messages keep, keep m)

  pub updated_message :
      (test : Message → Bool) (f : Message → Message) (messages : List Message)
      → ((m : Message) → (f m).id ≡ m.id)
      → any (λ m. m.id == mid) messages ≡ true
      → any (λ m. m.id == mid) (update_where test f messages) ≡ true
  updated_message test f [] same h = h
  updated_message test f (m ∷ messages) same h = elim (Bool-cases (test m)) [
    | inl e ↦ rw (e, same m) (ground (arith, updated_message test f messages same))
    | inr e ↦ rw e (ground (arith, updated_message test f messages same))
  ]

  pub kept_save :
      (test : Save → Bool) (saves : List Save)
      → ((s : Save) → (s.id == sid) ≡ true → test s ≡ true)
      → any (λ s. s.id == sid && s.message_id == mid) saves ≡ true
      → any (λ s. s.id == sid && s.message_id == mid) (keep_if test saves) ≡ true
  kept_save test [] keep h = h
  kept_save test (s ∷ saves) keep h = ground (arith, kept_save test saves keep, keep s)

  pub updated_save :
      (test : Save → Bool) (f : Save → Save) (saves : List Save)
      → ((s : Save) → (f s).id ≡ s.id × (f s).message_id ≡ s.message_id)
      → any (λ s. s.id == sid && s.message_id == mid) saves ≡ true
      → any (λ s. s.id == sid && s.message_id == mid) (update_where test f saves) ≡ true
  updated_save test f [] same h = h
  updated_save test f (s ∷ saves) same h = elim (Bool-cases (test s)) [
    | inl e ↦ rw (e, (same s).0, (same s).1) (ground (arith, updated_save test f saves same))
    | inr e ↦ rw e (ground (arith, updated_save test f saves same))
  ]

  held_saves :
      (saves : List Save)
      → any (λ s. s.id == sid && s.message_id == mid) saves ≡ true
      → any (λ s. s.message_id == mid) saves ≡ true
  held_saves [] h = h
  held_saves (s ∷ saves) h = ground (arith, held_saves saves)

  held_is_saved :
      (saves : List Save) (m : Message)
      → any (λ s. s.id == sid && s.message_id == mid) saves ≡ true
      → (m.id == mid) ≡ true
      → is_saved saves m ≡ true
  held_is_saved saves m h e =
      ap (λ id. any (λ s. s.message_id == id) saves) ((eq_iff m.id mid).0 e) ∙ held_saves saves h

  pub messages_held :
      (box : Mailbox) → is_held box ≡ true → any (λ m. m.id == mid) box.messages ≡ true
  messages_held box h = ground arith

  pub saves_held :
      (box : Mailbox)
      → is_held box ≡ true
      → any (λ s. s.id == sid && s.message_id == mid) box.saves ≡ true
  saves_held box h = ground arith

  pub held_by :
      (box : Mailbox)
      → any (λ m. m.id == mid) box.messages ≡ true
      → any (λ s. s.id == sid && s.message_id == mid) box.saves ≡ true
      → is_held box ≡ true
  held_by box h h' = ground arith

  pub delete_unsaved_keeps :
      (id : String) (box : Mailbox) → is_held box ≡ true → is_held (delete_unsaved id box) ≡ true
  unfolding delete_unsaved
  delete_unsaved_keeps id box h =
      held_by (delete_unsaved id box)
        (kept_message (λ m. not (m.source_id == id) || is_saved box.saves m) box.messages
          (λ m e.
            let saved = held_is_saved box.saves m (saves_held box h) e in ground (arith, saved))
          (messages_held box h))
        (saves_held box h)

  pub delete_stopped_unsaved_keeps :
      (id : String) (box : Mailbox)
      → is_held box ≡ true
      → is_held (delete_stopped_unsaved id box) ≡ true
  unfolding delete_stopped_unsaved
  delete_stopped_unsaved_keeps id box h =
      held_by (delete_stopped_unsaved id box)
        (kept_message _ box.messages
          (λ m e.
            let saved = held_is_saved box.saves m (saves_held box h) e in ground (arith, saved))
          (messages_held box h))
        (saves_held box h)
