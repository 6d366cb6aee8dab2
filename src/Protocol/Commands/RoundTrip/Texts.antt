-- ===== src/Protocol/Commands/RoundTrip/Texts.antt =====
-- Commands with texts, encoded and decoded (core/protocol/src/commands.rs).
use pdf_platform.Protocol.Commands.Branches.{read_action, read_plugin, read_unload}
use pdf_platform.Protocol.Commands.Decoding.{decode_command, read_kind}
use pdf_platform.Protocol.Wire.Utf8.{utf8_from}
use pdf_platform.Protocol.Wire.Values.{unescape-escape}
use pdf_platform.Protocol.Wire.{escape}
use pdf_platform.Common.Decimal.{codes}
use pdf_platform.Protocol.Commands.Reading.{action_step, plugin_step, required, unload_step}
use pdf_platform.Protocol.Commands.RoundTrip.{IsSendable, escape-IsValue}
use pdf_platform.Protocol.Commands.Messages.{
  IsField, decode_command-message, each_field-print_fields, each_pair,
}
use pdf_platform.Protocol.Commands.{Command, Floats, encode_command}
use pdf_platform.Common.{ℕ, List, All, [], none, ok, refl, ◌∙◌, ◌∷◌, ◌≡◌}
use pdf_platform.Common.Keys.{contains, bytes_beq}

module _ (floats : Floats) where
  pub decode-load_plugin :
      (id : ℕ) (plugin manifest : List ℕ)
      → IsSendable floats (Command.load_plugin id plugin manifest)
      → decode_command floats (encode_command floats (Command.load_plugin id plugin manifest))
        ≡ ok (Command.load_plugin id plugin manifest)
  unfolding encode_command read_kind read_plugin each_pair plugin_step required contains utf8_from
      bytes_beq
  decode-load_plugin id plugin manifest (i, p, m) =
      let fields : List (List ℕ × List ℕ) =
        (codes "plugin_id", plugin) ∷ (codes "manifest", escape manifest) ∷ [] in
      let printable : All IsField fields = ((refl, p), ((refl, escape-IsValue manifest m), tt)) in
      decode_command-message floats (codes "LOAD_PLUGIN") id fields refl i printable
      ∙ rw
          (
            each_field-print_fields plugin_step (record { plugin_id = none; manifest = none })
                fields printable,
            unescape-escape manifest m.0.no_escape,
          )
          refl

  pub decode-unload_plugin :
      (id : ℕ) (plugin : List ℕ)
      → IsSendable floats (Command.unload_plugin id plugin)
      → decode_command floats (encode_command floats (Command.unload_plugin id plugin))
        ≡ ok (Command.unload_plugin id plugin)
  unfolding encode_command read_kind read_unload each_pair unload_step required contains utf8_from
      bytes_beq
  decode-unload_plugin id plugin (i, p) =
      let fields : List (List ℕ × List ℕ) = (codes "plugin_id", plugin) ∷ [] in
      let printable : All IsField fields = ((refl, p), tt) in
      decode_command-message floats (codes "UNLOAD_PLUGIN") id fields refl i printable
      ∙ rw (each_field-print_fields unload_step none fields printable) refl

  pub decode-invoke_plugin_action :
      (id : ℕ) (plugin action args : List ℕ)
      → IsSendable floats (Command.invoke_plugin_action id plugin action args)
      → decode_command floats
          (encode_command floats (Command.invoke_plugin_action id plugin action args))
        ≡ ok (Command.invoke_plugin_action id plugin action args)
  unfolding encode_command read_kind read_action each_pair action_step required contains utf8_from
      bytes_beq
  decode-invoke_plugin_action id plugin action args (i, p, a, m) =
      let fields : List (List ℕ × List ℕ) =
        (codes "plugin_id", plugin)
        ∷ (codes "action_id", action)
        ∷ (codes "args", escape args)
        ∷ [] in
      let printable : All IsField fields =
        ((refl, p), ((refl, a), ((refl, escape-IsValue args m), tt))) in
      decode_command-message floats (codes "INVOKE_PLUGIN_ACTION") id fields refl i printable
      ∙ rw
          (
            each_field-print_fields action_step
                (record { plugin_id = none; action_id = none; args = none }) fields printable,
            unescape-escape args m.0.no_escape,
          )
          refl
