-- ===== src/Document/Session.antt =====
-- core/coordinator/src/document.rs: the edits of DocumentCoordinator: applying a command group, undo,
-- redo, crash recovery and close. The sidecar is the bytes of its file, if there is a file. The
-- system calls that write it and the text they write, the header and `serialize_applied`, are not
-- modelled: they are the parameter `write_sidecar`, which takes the revision and the applied groups
-- and gives the bytes left behind, any bytes, and whether the write was reported as good. Deleting the
-- file is taken to succeed. The worker session, the summary, the paths and the save state are left
-- out: none of these operations touches them.
pub mod Undoing
pub mod Replay
pub mod Recovery
use pdf_platform.Document.Journal.{UndoJournal, can_undo, clear_journal, record_group, redo, undo}
use pdf_platform.Document.Overlay.{CowOverlay, bump_revision}
use pdf_platform.Document.Command.{CommandGroup, apply_group, undo_group}
use pdf_platform.Text.{TextExtractionService, invalidate_text, clear_text}
use pdf_platform.Common.{
  ℕ, ◌>>=◌, Bool, List, Option, Result, [], if◌then◌else◌, false, length, none, ok, some, true, ◌∷◌,
}

-- `SessionError`; messages are lists of bytes.
pub data SessionError : Type 0 where
  io : List ℕ → SessionError
  invalid_state : List ℕ → SessionError
  protocol : List ℕ → SessionError

pub record DocumentCoordinator (Model : Type 0) : Type 0 where
  pub overlay : CowOverlay
  pub journal : UndoJournal
  pub sidecar : Option (List ℕ)
  pub text_service : TextExtractionService Model

-- The write of the sidecar, from the revision and the applied groups: the file left behind, and the
-- result.
abbrev pub SidecarWriter : Type 0
SidecarWriter = ℕ → List CommandGroup → Option (List ℕ) × Result SessionError (Unit {0})

-- The loop of `apply_recovered_groups`.
unfoldable pub recover_each :
    List CommandGroup → CowOverlay × UndoJournal → CowOverlay × UndoJournal
recover_each [] state = state
recover_each (group ∷ groups) state =
    recover_each groups ((bump_revision (apply_group group state.0)).0, record_group state.1 group)

module _ {Model : Type 0} (write_sidecar : SidecarWriter) where
  unfoldable pub persist_journal :
      DocumentCoordinator Model → DocumentCoordinator Model × Result SessionError (Unit {0})
  persist_journal c =
      let written = write_sidecar c.overlay.current_revision c.journal.applied in
      if can_undo c.journal
      then (record c { sidecar = written.0 }, written.1)
      else (record c { sidecar = none }, ok tt)

  -- What follows the change of overlay and journal: `bump_revision`, `invalidate`, `persist_journal`.
  unfoldable pub commit :
      {A : Type 0}
      → DocumentCoordinator Model
      → CowOverlay
      → UndoJournal
      → A
      → DocumentCoordinator Model × Result SessionError A
  commit c overlay journal value =
      let persisted = persist_journal (record c {
        overlay = (bump_revision overlay).0;
        journal = journal;
        text_service = invalidate_text c.text_service;
      }) in
      (persisted.0, persisted.1 >>= λ _. ok value)

  unfoldable pub apply_command_group :
      DocumentCoordinator Model
      → CommandGroup
      → DocumentCoordinator Model × Result SessionError (Unit {0})
  apply_command_group c group =
      commit c (apply_group group c.overlay) (record_group c.journal group) tt

  -- `DocumentCoordinator::undo`
  unfoldable pub undo_last :
      DocumentCoordinator Model → DocumentCoordinator Model × Result SessionError Bool
  undo_last c =
      let (journal, undone) = undo c.journal in
      elim undone [
        | some group ↦ commit c (undo_group group c.overlay) journal true
        | none ↦ (record c { journal = journal }, ok false)
      ]

  -- `DocumentCoordinator::redo`
  unfoldable pub redo_last :
      DocumentCoordinator Model → DocumentCoordinator Model × Result SessionError Bool
  redo_last c =
      let (journal, redone) = redo c.journal in
      elim redone [
        | some group ↦ commit c (apply_group group c.overlay) journal true
        | none ↦ (record c { journal = journal }, ok false)
      ]

  unfoldable pub apply_recovered_groups :
      DocumentCoordinator Model
      → List CommandGroup
      → DocumentCoordinator Model × Result SessionError ℕ
  apply_recovered_groups c groups =
      let recovered = recover_each groups (c.overlay, c.journal) in
      let persisted = persist_journal (record c {
        overlay = recovered.0;
        journal = recovered.1;
        text_service = invalidate_text c.text_service;
      }) in
      (persisted.0, persisted.1 >>= λ _. ok (length groups))

-- `DocumentCoordinator::close`, which returns `Ok(())`.
unfoldable pub close : {Model : Type 0} → DocumentCoordinator Model → DocumentCoordinator Model
close c = record c {
  sidecar = none;
  journal = clear_journal c.journal;
  text_service = clear_text c.text_service;
}
