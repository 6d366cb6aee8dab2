-- ===== src/Document/Session/Undoing.antt =====
-- Undo and redo of a committed group restore what the document shows
-- (core/coordinator/src/document.rs).
use mathlib.Core.List.{reverse}
use pdf_platform.Document.Command.Revision.{revision-apply_each, revision-undo_each}
use pdf_platform.Document.Command.Reapply.{apply_each_again}
use pdf_platform.Document.Journal.Timeline.{redo_step, undo_step}
use pdf_platform.Document.Overlay.Reads.{IsOverlay, bump_revision-IsOverlay}
use pdf_platform.Document.Command.{CommandGroup, apply_group, undo_group}
use pdf_platform.Document.Journal.{UndoJournal, can_undo, record_group, redo, undo}
use pdf_platform.Document.Session.{
  DocumentCoordinator, SidecarWriter, commit, persist_journal, apply_command_group, redo_last,
  undo_last,
}
use pdf_platform.Document.Overlay.{CowOverlay, bump_revision, get_object}
use pdf_platform.Document.Command.Undo.{
  read, AllRecorded, any_left_behind, apply_each-IsOverlay, undo_each-IsOverlay, undo_group_later,
}
use pdf_platform.Common.{
  ℕ, Bool-cases, List, inl, inr, refl, ◌≡◌, [], some, true, ◌∷◌, ◌%◌, ◌+◌, ◌<◌, ◌^◌, ap, ◌∙◌, arith,
  false, sym,
}

-- The next revision shows the same document.
pub read-bump_revision :
    (base : ℕ → List ℕ) (o : CowOverlay) (j : ℕ) → read base (bump_revision o).0 j ≡ read base o j
unfolding bump_revision read get_object
read-bump_revision base o j = refl

bumped :
    (o : CowOverlay) (r : ℕ)
    → IsOverlay o
    → o.current_revision ≡ r
    → r + 1 < 2 ^ 64
    → IsOverlay (bump_revision o).0 × ((bump_revision o).0.current_revision ≡ r + 1)
unfolding bump_revision
bumped o r v e h = ((bump_revision-IsOverlay o v (omega arith)).0, omega arith)

apply_group-IsOverlay :
    (g : CommandGroup) (o : CowOverlay)
    → IsOverlay o
    → IsOverlay (apply_group g o) × ((apply_group g o).current_revision ≡ o.current_revision)
unfolding apply_group
apply_group-IsOverlay g o v =
    (apply_each-IsOverlay g.commands o v, revision-apply_each g.commands o)

undo_group-IsOverlay :
    (g : CommandGroup) (o : CowOverlay)
    → IsOverlay o
    → IsOverlay (undo_group g o) × ((undo_group g o).current_revision ≡ o.current_revision)
unfolding undo_group
undo_group-IsOverlay g o v =
    (undo_each-IsOverlay (reverse g.commands) o v, revision-undo_each (reverse g.commands) o)

module _ {Model : Type 0} (write_sidecar : SidecarWriter) where
  pub overlay-commit :
      {A : Type 0} (c : DocumentCoordinator Model) (o : CowOverlay) (j : UndoJournal) (a : A)
      → ((commit write_sidecar c o j a).0.overlay ≡ (bump_revision o).0)
        × ((commit write_sidecar c o j a).0.journal ≡ j)
  unfolding commit persist_journal
  overlay-commit c o j a = elim (Bool-cases (can_undo j)) [
    | inl h ↦ rw h (refl, refl)
    | inr h ↦ rw h (refl, refl)
  ]

  undo_last_of :
      (c : DocumentCoordinator Model) (j : UndoJournal) (g : CommandGroup)
      → undo c.journal ≡ (j, some g)
      → undo_last write_sidecar c ≡ commit write_sidecar c (undo_group g c.overlay) j true
  unfolding undo_last
  undo_last_of c j g h =
      rw (undo_last, ap (λ p. p.1) h)
        (ap (λ p. commit write_sidecar c (undo_group g c.overlay) p.0 true) h)

  redo_last_of :
      (c : DocumentCoordinator Model) (j : UndoJournal) (g : CommandGroup)
      → redo c.journal ≡ (j, some g)
      → redo_last write_sidecar c ≡ commit write_sidecar c (apply_group g c.overlay) j true
  unfolding redo_last
  redo_last_of c j g h =
      rw (redo_last, ap (λ p. p.1) h)
        (ap (λ p. commit write_sidecar c (apply_group g c.overlay) p.0 true) h)

  module _ (base : ℕ → List ℕ) (c : DocumentCoordinator Model) (g : CommandGroup) (j : ℕ) where
    -- The states after applying a group, undoing it, and redoing it.
    abbrev pub after_apply : DocumentCoordinator Model
    after_apply = (apply_command_group write_sidecar c g).0

    abbrev pub after_undo : DocumentCoordinator Model
    after_undo = (undo_last write_sidecar after_apply).0

    abbrev pub after_redo : DocumentCoordinator Model
    after_redo = (redo_last write_sidecar after_undo).0

    apply_state :
        (after_apply.overlay ≡ (bump_revision (apply_group g c.overlay)).0)
        × (after_apply.journal ≡ record_group c.journal g)
    unfolding apply_command_group
    apply_state = overlay-commit c (apply_group g c.overlay) (record_group c.journal g) tt

    abbrev pub undone_journal : UndoJournal
    undone_journal = record {
      applied = c.journal.applied;
      undone = g ∷ [];
      total_applied = (c.journal.total_applied + 1) % 2 ^ 64;
    }

    reapplied :
        (o o' : CowOverlay)
        → IsOverlay o
        → IsOverlay o'
        → read base o' j ≡ read base o j
        → read base (apply_group g o') j ≡ read base (apply_group g o) j
    unfolding apply_group
    reapplied o o' v v' h = apply_each_again base j g.commands o o' v v' h

    undo_recorded : undo after_apply.journal ≡ (undone_journal, some g)
    unfolding record_group
    undo_recorded =
        ap undo apply_state.1 ∙ undo_step (record_group c.journal g) c.journal.applied g refl

    undo_state :
        (after_undo.overlay ≡ (bump_revision (undo_group g after_apply.overlay)).0)
        × (after_undo.journal ≡ undone_journal)
    undo_state =
        let same = undo_last_of after_apply undone_journal g undo_recorded in
        let done =
          overlay-commit after_apply (undo_group g after_apply.overlay) undone_journal true in
        (ap (λ p. p.0.overlay) same ∙ done.0, ap (λ p. p.0.journal) same ∙ done.1)

    redo_undone : redo after_undo.journal ≡ (record_group c.journal g, some g)
    unfolding record_group
    redo_undone = ap redo undo_state.1 ∙ redo_step undone_journal [] g refl

    redo_state :
        (after_redo.overlay ≡ (bump_revision (apply_group g after_undo.overlay)).0)
        × (after_redo.journal ≡ record_group c.journal g)
    redo_state =
        let journal = record_group c.journal g in
        let same = redo_last_of after_undo journal g redo_undone in
        let done = overlay-commit after_undo (apply_group g after_undo.overlay) journal true in
        (ap (λ p. p.0.overlay) same ∙ done.0, ap (λ p. p.0.journal) same ∙ done.1)

    module _ (v : IsOverlay c.overlay) (room : c.overlay.current_revision + 2 < 2 ^ 64) where
      applied-IsOverlay :
          IsOverlay after_apply.overlay
          × (after_apply.overlay.current_revision ≡ c.overlay.current_revision + 1)
      applied-IsOverlay =
          let (kept, same) = apply_group-IsOverlay g c.overlay v in
          rw apply_state.0
            (bumped (apply_group g c.overlay) c.overlay.current_revision kept same (omega arith))

      undone-IsOverlay : IsOverlay after_undo.overlay
      undone-IsOverlay =
          let (well, at) = applied-IsOverlay in
          let (kept, same) = undo_group-IsOverlay g after_apply.overlay well in
          rw undo_state.0
            (bumped (undo_group g after_apply.overlay) (c.overlay.current_revision + 1) kept
              (same ∙ at) (omega arith)).0

      module _ (rec : AllRecorded base c.overlay g.commands)
          (left : any_left_behind g.commands j ≡ false) where
        -- Undoing right after applying: every object that the group did not create is shown as before
        -- the group, and the group is the only one to redo.
        pub undo_last-apply_command_group :
            (read base after_undo.overlay j ≡ read base c.overlay j)
            × (after_undo.journal ≡ undone_journal)
        undo_last-apply_command_group =
            let shown =
              ap (λ o. read base o j) apply_state.0
              ∙ read-bump_revision base (apply_group g c.overlay) j in
            (
              ap (λ o. read base o j) undo_state.0
                  ∙ read-bump_revision base (undo_group g after_apply.overlay) j
                  ∙ undo_group_later base g c.overlay after_apply.overlay j v applied-IsOverlay.0
                      rec left shown,
              undo_state.1,
            )

        -- Redoing after that: every object that the group did not create is shown as after the group,
        -- and the journal is the one of then.
        pub redo_last-undo_last :
            (read base after_redo.overlay j ≡ read base after_apply.overlay j)
            × (after_redo.journal ≡ after_apply.journal)
        redo_last-undo_last = (
          ap (λ o. read base o j) redo_state.0
              ∙ read-bump_revision base (apply_group g after_undo.overlay) j
              ∙ reapplied c.overlay after_undo.overlay v undone-IsOverlay
                  undo_last-apply_command_group.0
              ∙ sym (
                  ap (λ o. read base o j) apply_state.0
                  ∙ read-bump_revision base (apply_group g c.overlay) j),
          redo_state.1 ∙ sym apply_state.1,
        )
