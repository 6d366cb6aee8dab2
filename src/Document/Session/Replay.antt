-- ===== src/Document/Session/Replay.antt =====
-- core/coordinator/src/document.rs: `replay_sidecar`. `std::fs::read` is the parameter `read_file`,
-- which takes the file, if there is one, and `String::from_utf8_lossy` is `lossy`.
use pdf_platform.Common.Decimal.{codes}
use pdf_platform.Common.Keys.{bytes_beq}
use pdf_platform.Common.{◌++◌, ◌∷◌, List, Option, Result, [], err, if◌then◌else◌, none, ok, some, ℕ}
use pdf_platform.Protocol.Wire.{lines}
use pdf_platform.Document.Command.{CommandGroup}
use pdf_platform.Document.Journal.Sidecar.{deserialize_applied}
use pdf_platform.Document.Session.{DocumentCoordinator, SessionError, io}

-- The lines behind the first `---`, or all of them.
unfoldable pub behind_rule : List (List ℕ) → Option (List (List ℕ))
behind_rule [] = none
behind_rule (line ∷ rest) = if bytes_beq line (codes "---") then some rest else behind_rule rest

-- `join("\n")`
unfoldable pub join_lines : List (List ℕ) → List ℕ
join_lines [] = []
join_lines (line ∷ []) = line
join_lines (line ∷ next ∷ rest) = line ++ b'\n' ∷ join_lines (next ∷ rest)

unfoldable pub journal_bytes : (List ℕ → List ℕ) → List ℕ → List ℕ
journal_bytes lossy bytes =
    let text = lines (lossy bytes) in
    join_lines (elim (behind_rule text) [ none ↦ text | some rest ↦ rest ])

unfoldable pub replay_sidecar :
    {Model : Type 0}
    → (List ℕ → List ℕ)
    → (Option (List ℕ) → Result (List ℕ) (List ℕ))
    → DocumentCoordinator Model
    → Result SessionError (List CommandGroup)
replay_sidecar lossy read_file c = elim (read_file c.sidecar) [
  | err e ↦ err (io e)
  | ok bytes ↦ ok (deserialize_applied lossy (journal_bytes lossy bytes))
]
