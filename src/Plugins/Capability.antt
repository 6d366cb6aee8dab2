-- ===== src/Plugins/Capability.antt =====
-- core/plugin-host/src/manifest.rs: the capabilities. Object numbers are u32.
use pdf_platform.Common.{
  ℕ, ◌&&◌, Bool, ap, arith, refl, subst, sym, true, ◌↔◌, ◌∙◌, ◌≡◌, if◌then◌else◌,
}
use pdf_platform.Common.Keys.{◌==◌, Eq, nat_eq}
use Prim.Native.String.{String}

pub data Capability : Type 0 where
  read_text : Capability
  read_structure : Capability
  read_object : ℕ → Capability
  annotate : Capability
  register_job : Capability
  contribute_panel : Capability
  network : Capability
  read_file : Capability
  write_file : Capability

-- `Capability::description`
unfoldable pub description : Capability → String
description read_text = "Read text content from document pages"
description read_structure = "Read document structure (bookmarks, layers, attachments)"
description (read_object n) = "Read raw PDF object data"
description annotate = "Add annotations to the document (undoable)"
description register_job = "Register custom batch/job types"
description contribute_panel = "Add panels to the application UI"
description network = "Access the network (requires user consent per call)"
description read_file = "Read files from the filesystem (scoped, requires consent)"
description write_file = "Write files to the filesystem (scoped, requires consent)"

-- The derived equality compares the variant and the object number.
unfoldable pub variant : Capability → ℕ × ℕ
variant read_text = (0, 0)
variant read_structure = (1, 0)
variant (read_object n) = (2, n)
variant annotate = (3, 0)
variant register_job = (4, 0)
variant contribute_panel = (5, 0)
variant network = (6, 0)
variant read_file = (7, 0)
variant write_file = (8, 0)

abbrev of_variant : ℕ → ℕ → Capability
of_variant t n =
    if t == 0
    then read_text
    else if t == 1
    then read_structure
    else if t == 2
    then read_object n
    else if t == 3
    then annotate
    else if t == 4
    then register_job
    else if t == 5
    then contribute_panel
    else if t == 6
    then network
    else if t == 7
    then read_file
    else write_file

of_variant-variant : (c : Capability) → of_variant (variant c).0 (variant c).1 ≡ c
unfolding variant
of_variant-variant read_text = refl
of_variant-variant read_structure = refl
of_variant-variant (read_object n) = refl
of_variant-variant annotate = refl
of_variant-variant register_job = refl
of_variant-variant contribute_panel = refl
of_variant-variant network = refl
of_variant-variant read_file = refl
of_variant-variant write_file = refl

unfoldable pub capability_beq : Capability → Capability → Bool
capability_beq a b = (variant a).0 == (variant b).0 && (variant a).1 == (variant b).1

same_variant : (a b : Capability) → capability_beq a b ≡ true → a ≡ b
unfolding capability_beq
same_variant a b h =
    let tags : (variant a).0 ≡ (variant b).0 = ground arith in
    let numbers : (variant a).1 ≡ (variant b).1 = ground arith in
    sym (of_variant-variant a)
    ∙ ap (λ t. of_variant t (variant a).1) tags
    ∙ ap (of_variant (variant b).0) numbers
    ∙ of_variant-variant b

pub capability_beq_iff : (a b : Capability) → (capability_beq a b ≡ true) ↔ (a ≡ b)
unfolding capability_beq
capability_beq_iff a b =
    (same_variant a b, λ e. subst (λ x. capability_beq a x ≡ true) e (ground arith))

instance abbrev pub capability_eq : Eq Capability
capability_eq = record { eqb = capability_beq; eqb_iff = capability_beq_iff }
