-- ===== src/Document/Journal/Sidecar.antt =====
-- core/pdf-model/src/journal.rs: `deserialize_applied`, which reads the text of a journal, and what it
-- reads. `String::from_utf8_lossy` is the parameter `lossy`.
use pdf_platform.Document.Command.{CommandGroup, new_group}
use pdf_platform.Protocol.Wire.{lines, strip_prefix}
use pdf_platform.Common.Decimal.{codes}
use pdf_platform.Common.Keys.{bytes_beq}
use pdf_platform.Common.{
  ◌++◌, ◌∙◌, ◌≡◌, ◌∷◌, List, Option, Option-cases, [], if◌then◌else◌, inl, inr, map, none, refl,
  some, sym, ℕ, arith,
}
use mathlib.Core.List.{append-nil, append_assoc}

-- `if let Some(g) = current_group.take() { groups.push(g) }`
unfoldable pub push_group : List CommandGroup → Option CommandGroup → List CommandGroup
push_group groups none = groups
push_group groups (some g) = groups ++ g ∷ []

-- The body of the loop over the lines; the lines of commands and of their data do nothing.
unfoldable pub read_line :
    List CommandGroup × Option CommandGroup → List ℕ → List CommandGroup × Option CommandGroup
read_line (groups, current) line = elim (strip_prefix (codes "GROUP:") line) [
  | some name ↦ (push_group groups current, some (new_group name))
  | none ↦ elim (strip_prefix (codes "CMD:") line) [
    | some _ ↦ (groups, current)
    | none ↦ elim (strip_prefix (codes "DATA:") line) [
      | some _ ↦ (groups, current)
      | none ↦
          if bytes_beq line (codes "END_GROUP")
          then (push_group groups current, none)
          else (groups, current)
    ]
  ]
]

unfoldable pub read_lines :
    List CommandGroup × Option CommandGroup → List (List ℕ) → List CommandGroup
read_lines state [] = push_group state.0 state.1
read_lines state (line ∷ rest) = read_lines (read_line state line) rest

-- `deserialize_applied` returns `Ok` of this.
unfoldable pub deserialize_applied : (List ℕ → List ℕ) → List ℕ → List CommandGroup
deserialize_applied lossy bytes = read_lines ([], none) (lines (lossy bytes))

-- What the lines of groups name, in order.
unfoldable pub group_names : List (List ℕ) → List (List ℕ)
group_names [] = []
group_names (line ∷ rest) = elim (strip_prefix (codes "GROUP:") line) [
  | some name ↦ name ∷ group_names rest
  | none ↦ group_names rest
]

push_group-append :
    (gs : List CommandGroup) (current : Option CommandGroup) (name : List ℕ)
    → push_group (push_group gs current) (some (new_group name))
      ≡ push_group gs current ++ new_group name ∷ []
unfolding push_group
push_group-append gs none name = refl
push_group-append gs (some g) name = refl

read_line-starts :
    (s : List CommandGroup × Option CommandGroup) (l name : List ℕ)
    → strip_prefix (codes "GROUP:") l ≡ some name
    → read_line s l ≡ (push_group s.0 s.1, some (new_group name))
unfolding read_line
read_line-starts s l name h = rw (read_line, h) refl

-- Any other line keeps the groups that are read when it stops.
read_line-other :
    (s : List CommandGroup × Option CommandGroup) (l : List ℕ)
    → strip_prefix (codes "GROUP:") l ≡ none
    → push_group (read_line s l).0 (read_line s l).1 ≡ push_group s.0 s.1
unfolding read_line push_group
read_line-other s l h = ground arith

group_names-starts :
    (l name : List ℕ) (ls : List (List ℕ))
    → strip_prefix (codes "GROUP:") l ≡ some name
    → group_names (l ∷ ls) ≡ name ∷ group_names ls
unfolding group_names
group_names-starts l name ls h = rw (group_names, h) refl

group_names-other :
    (l : List ℕ) (ls : List (List ℕ))
    → strip_prefix (codes "GROUP:") l ≡ none
    → group_names (l ∷ ls) ≡ group_names ls
unfolding group_names
group_names-other l ls h = rw (group_names, h) refl

read_lines_lem :
    (ls : List (List ℕ)) (s : List CommandGroup × Option CommandGroup)
    → read_lines s ls ≡ push_group s.0 s.1 ++ map new_group (group_names ls)
unfolding read_lines
read_lines_lem [] s = unfold group_names in sym (append-nil (push_group s.0 s.1))
read_lines_lem (l ∷ ls) s = elim (Option-cases (strip_prefix (codes "GROUP:") l)) [
  | inl other ↦
      read_lines_lem ls (read_line s l)
      ∙ rw (read_line-other s l other, group_names-other l ls other) refl
  | inr (name, starts) ↦
      read_lines_lem ls (read_line s l)
      ∙ rw
          (
            read_line-starts s l name starts,
            push_group-append s.0 s.1 name,
            group_names-starts l name ls starts,
          )
          (append_assoc (push_group s.0 s.1) (new_group name ∷ []) (map new_group (group_names ls)))
]

pub deserialize_applied_lem :
    (lossy : List ℕ → List ℕ) (bytes : List ℕ)
    → deserialize_applied lossy bytes ≡ map new_group (group_names (lines (lossy bytes)))
unfolding deserialize_applied push_group
deserialize_applied_lem lossy bytes = read_lines_lem (lines (lossy bytes)) ([], none)
