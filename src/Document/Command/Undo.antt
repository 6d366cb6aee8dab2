-- ===== src/Document/Command/Undo.antt =====
-- Undoing a command group restores the document (core/pdf-model/src/command.rs).
use pdf_platform.Document.Overlay.Reads.{IsOverlay, get_object-set_object, set_object-IsOverlay}
use pdf_platform.Document.Overlay.{CowOverlay, get_object, set_object}
use pdf_platform.Document.Command.{
  Command, appearance_obj_num, apply_command, apply_each, create_annotation, delete_annotation,
  edit_annotation, flatten_form, set_appearance, set_field_value, set_object_command,
  set_review_status, undo_command, undo_each, CommandGroup, apply_group, undo_group,
}
use mathlib.Core.List.{reverse, reverse-cons}
use pdf_platform.Common.{
  ℕ, ◌&&◌, ◌++◌, Bool, List, Option, [], arith, if◌then◌else◌, false, none, refl, some, true, ◌||◌,
  ◌∷◌, ◌≡◌, ◌==◌,
}

-- What the document shows of an object: the overlay's bytes, or else those of the original file.
unfoldable pub read : (ℕ → List ℕ) → CowOverlay → ℕ → List ℕ
read base o j = elim (get_object o j) [ none ↦ base j | some b ↦ b ]

module _ (base : ℕ → List ℕ) where
  pub read-set_object :
      (o : CowOverlay) (n j : ℕ) (b : List ℕ)
      → IsOverlay o
      → read base (set_object o n b) j ≡ (if n == j then b else read base o j)
  unfolding read
  read-set_object o n j b v = ground (arith, get_object-set_object o n j b v)

  -- What was recorded of object `n`, if anything was, is what the document shows.
  abbrev pub Shows : CowOverlay → ℕ → Option (List ℕ) → Type 0
  Shows o n none = Unit {0}
  Shows o n (some b) = b ≡ read base o n

  -- The command has recorded what the document showed before it: its undo data are right.
  abbrev pub HasRecorded : CowOverlay → Command → Type 0
  HasRecorded o (set_object_command c) = Shows o c.obj_num c.old_bytes
  HasRecorded o (create_annotation c) = c.original_page_bytes ≡ read base o c.page_obj_num
  HasRecorded o (delete_annotation c) = c.original_page_bytes ≡ read base o c.page_obj_num
  HasRecorded o (edit_annotation c) = Shows o (appearance_obj_num c.annotation_id) c.old_appearance
  HasRecorded o (set_review_status c) = Unit {0}
  HasRecorded o (set_field_value c) = c.original_acroform_bytes ≡ read base o c.acroform_obj_num
  HasRecorded o (flatten_form c) = c.original_acroform_bytes ≡ read base o c.acroform_obj_num

  abbrev pub AllRecorded : CowOverlay → List Command → Type 0
  AllRecorded o [] = Unit {0}
  AllRecorded o (c ∷ cs) = HasRecorded o c × AllRecorded (apply_command c o) cs

is_absent : Option (List ℕ) → Bool
is_absent none = true
is_absent (some b) = false

-- The objects that `undo` does not take back: those that a command created.
unfoldable pub is_left_behind : Command → ℕ → Bool
unfolding is_absent
is_left_behind (set_object_command c) j = is_absent c.old_bytes && c.obj_num == j
is_left_behind (create_annotation c) j = c.annot_obj_num == j || c.ap_obj_num == j
is_left_behind (delete_annotation c) j = false
is_left_behind (edit_annotation c) j =
    is_absent c.old_appearance && appearance_obj_num c.annotation_id == j
is_left_behind (set_review_status c) j = false
is_left_behind (set_field_value c) j = false
is_left_behind (flatten_form c) j = false

unfoldable pub any_left_behind : List Command → ℕ → Bool
any_left_behind [] j = false
any_left_behind (c ∷ cs) j = is_left_behind c j || any_left_behind cs j

set_appearance-IsOverlay :
    (o : CowOverlay) (n : ℕ) (b : Option (List ℕ)) → IsOverlay o → IsOverlay (set_appearance o n b)
unfolding set_appearance
set_appearance-IsOverlay o n none v = v
set_appearance-IsOverlay o n (some b) v = set_object-IsOverlay o n b v

pub apply_command-IsOverlay :
    (c : Command) (o : CowOverlay) → IsOverlay o → IsOverlay (apply_command c o)
unfolding apply_command
apply_command-IsOverlay (set_object_command c) o v = set_object-IsOverlay o _ _ v
apply_command-IsOverlay (create_annotation c) o v =
    set_object-IsOverlay _ _ _ (set_object-IsOverlay _ _ _ (set_object-IsOverlay o _ _ v))
apply_command-IsOverlay (delete_annotation c) o v = set_object-IsOverlay o _ _ v
apply_command-IsOverlay (edit_annotation c) o v = set_appearance-IsOverlay o _ c.new_appearance v
apply_command-IsOverlay (set_review_status c) o v = v
apply_command-IsOverlay (set_field_value c) o v = set_object-IsOverlay o _ _ v
apply_command-IsOverlay (flatten_form c) o v = set_object-IsOverlay o _ _ v

undo_command-IsOverlay : (c : Command) (o : CowOverlay) → IsOverlay o → IsOverlay (undo_command c o)
unfolding undo_command
undo_command-IsOverlay (set_object_command c) o v = set_appearance-IsOverlay o _ c.old_bytes v
undo_command-IsOverlay (create_annotation c) o v = set_object-IsOverlay o _ _ v
undo_command-IsOverlay (delete_annotation c) o v = set_object-IsOverlay o _ _ v
undo_command-IsOverlay (edit_annotation c) o v = set_appearance-IsOverlay o _ c.old_appearance v
undo_command-IsOverlay (set_review_status c) o v = v
undo_command-IsOverlay (set_field_value c) o v = set_object-IsOverlay o _ _ v
undo_command-IsOverlay (flatten_form c) o v = set_object-IsOverlay o _ _ v

pub undo_each-IsOverlay :
    (cs : List Command) (o : CowOverlay) → IsOverlay o → IsOverlay (undo_each cs o)
unfolding undo_each
undo_each-IsOverlay [] o v = v
undo_each-IsOverlay (c ∷ cs) o v =
    undo_each-IsOverlay cs (undo_command c o) (undo_command-IsOverlay c o v)

pub apply_each-IsOverlay :
    (cs : List Command) (o : CowOverlay) → IsOverlay o → IsOverlay (apply_each cs o)
unfolding apply_each
apply_each-IsOverlay [] o v = v
apply_each-IsOverlay (c ∷ cs) o v =
    apply_each-IsOverlay cs (apply_command c o) (apply_command-IsOverlay c o v)

undo_each-snoc :
    (cs : List Command) (c : Command) (o : CowOverlay)
    → undo_each (cs ++ c ∷ []) o ≡ undo_command c (undo_each cs o)
unfolding undo_each
undo_each-snoc [] c o = refl
undo_each-snoc (d ∷ cs) c o = undo_each-snoc cs c (undo_command d o)

undo_each-reverse :
    (c : Command) (cs : List Command) (o : CowOverlay)
    → undo_each (reverse (c ∷ cs)) o ≡ undo_command c (undo_each (reverse cs) o)
undo_each-reverse c cs o = rw (reverse-cons c cs) (undo_each-snoc (reverse cs) c o)

module _ (base : ℕ → List ℕ) (o o' : CowOverlay) (v : IsOverlay o) (v' : IsOverlay o') (j : ℕ) where
  -- Undoing one object's write: the read after it is the recorded one.
  restored :
      (n : ℕ) (new original : List ℕ)
      → original ≡ read base o n
      → read base o' j ≡ read base (set_object o n new) j
      → read base (set_object o' n original) j ≡ read base o j
  restored n new original rec h =
      ground (arith, read-set_object base o n j new v, read-set_object base o' n j original v')

  restored_optional :
      (n : ℕ) (new old : Option (List ℕ))
      → Shows base o n old
      → (is_absent old && n == j) ≡ false
      → read base o' j ≡ read base (set_appearance o n new) j
      → read base (set_appearance o' n old) j ≡ read base o j
  unfolding set_appearance is_absent
  restored_optional n none none rec left h = h
  restored_optional n (some new) none rec left h = ground (arith, read-set_object base o n j new v)
  restored_optional n none (some old) rec left h =
      ground (arith, read-set_object base o' n j old v')
  restored_optional n (some new) (some old) rec left h = restored n new old rec h

  -- Undoing a command at any later state that shows what the command left there.
  undo_one :
      (c : Command)
      → HasRecorded base o c
      → is_left_behind c j ≡ false
      → read base o' j ≡ read base (apply_command c o) j
      → read base (undo_command c o') j ≡ read base o j
  unfolding undo_command apply_command is_left_behind set_appearance set_object
  undo_one (set_object_command c) rec left h =
      restored_optional c.obj_num (some c.new_bytes) c.old_bytes rec left h
  undo_one (create_annotation c) rec left h =
      let o1 = set_object o c.page_obj_num c.new_page_bytes in
      let o2 = set_object o1 c.annot_obj_num c.annot_object_bytes in
      let v1 = set_object-IsOverlay o c.page_obj_num c.new_page_bytes v in
      let v2 = set_object-IsOverlay o1 c.annot_obj_num c.annot_object_bytes v1 in
      ground (
        arith,
        read-set_object base o c.page_obj_num j c.new_page_bytes v,
        read-set_object base o1 c.annot_obj_num j c.annot_object_bytes v1,
        read-set_object base o2 c.ap_obj_num j c.ap_object_bytes v2,
        read-set_object base o' c.page_obj_num j c.original_page_bytes v',
      )
  undo_one (delete_annotation c) rec left h = restored c.page_obj_num _ _ rec h
  undo_one (edit_annotation c) rec left h =
      restored_optional (appearance_obj_num c.annotation_id) c.new_appearance c.old_appearance rec
        left h
  undo_one (set_review_status c) rec left h = h
  undo_one (set_field_value c) rec left h = restored c.acroform_obj_num _ _ rec h
  undo_one (flatten_form c) rec left h = restored c.acroform_obj_num _ _ rec h

undo_commands :
    (base : ℕ → List ℕ) (cs : List Command) (o o' : CowOverlay) (j : ℕ)
    → IsOverlay o
    → IsOverlay o'
    → AllRecorded base o cs
    → any_left_behind cs j ≡ false
    → read base o' j ≡ read base (apply_each cs o) j
    → read base (undo_each (reverse cs) o') j ≡ read base o j
unfolding apply_each any_left_behind
undo_commands base [] o o' j v v' rec left h = unfold undo_each in h
undo_commands base (c ∷ cs) o o' j v v' rec left h = rw (undo_each-reverse c cs o') (
    undo_one base o (undo_each (reverse cs) o') v (undo_each-IsOverlay (reverse cs) o' v') j c rec.0
      (ground arith)
      (undo_commands base cs (apply_command c o) o' j (apply_command-IsOverlay c o v) v' rec.1
        (ground arith) h))

-- Undoing a group restores the document: if each command recorded what the document showed when it
-- was applied, then after applying the group and undoing it every object reads as before, except an
-- object that a command of the group created.
pub undo_group-apply_group :
    (base : ℕ → List ℕ) (g : CommandGroup) (o : CowOverlay) (j : ℕ)
    → IsOverlay o
    → AllRecorded base o g.commands
    → any_left_behind g.commands j ≡ false
    → read base (undo_group g (apply_group g o)) j ≡ read base o j
unfolding undo_group apply_group
undo_group-apply_group base g o j v rec left =
    undo_commands base g.commands o (apply_each g.commands o) j v
      (apply_each-IsOverlay g.commands o v) rec left refl

-- The same, when other edits to other objects lie between: undoing a group at any later state that
-- still shows what the group left at an object restores that object.
pub undo_group_later :
    (base : ℕ → List ℕ) (g : CommandGroup) (o o' : CowOverlay) (j : ℕ)
    → IsOverlay o
    → IsOverlay o'
    → AllRecorded base o g.commands
    → any_left_behind g.commands j ≡ false
    → read base o' j ≡ read base (apply_group g o) j
    → read base (undo_group g o') j ≡ read base o j
unfolding undo_group apply_group
undo_group_later base g o o' j v v' rec left h =
    undo_commands base g.commands o o' j v v' rec left h
