-- ===== src/Mcp/Tools/Guarded.antt =====
-- What the guard on raw commands says of the structured tools.
pub mod Control
pub mod Data
use framewalk.Prelude.{◌≡◌, refl, Bool, true, false, ◌&&◌, ◌∷◌, if◌then◌else◌}
use framewalk.Codec.Command.{MiCommand, parameter, option, option_with}
use framewalk.Mcp.RawGuard.{
  guarded, Guarded, permitted, rejected, unknown_command_family, validate_raw_mi_command,
}
use framewalk.Mcp.Tools.Guarded.Control.{
  guarded-session_command, guarded-execution_core_command, guarded-execution_extended_command,
  guarded-execution_reverse_command, guarded-breakpoints_core_command,
  guarded-breakpoints_extended_command, guarded-inspection_command, guarded-stack_core_command,
  guarded-stack_extended_command,
}
use framewalk.Mcp.Tools.Guarded.Data.{
  guarded-variables_core_command, guarded-variables_extended_command, guarded-data_core_command,
  guarded-data_extended_command, guarded-context_core_command, guarded-context_extended_command,
  guarded-file_command, guarded-target_command, guarded-file_transfer_command,
  guarded-support_core_command, guarded-support_extended_command, guarded-misc_command,
  guarded-symbol_core_command, guarded-symbol_extended_command, guarded-catchpoint_command,
  guarded-tracepoint_command,
}
use framewalk.Mcp.Tools.Catalog.{
  Tool, session, execution_core, execution_extended, execution_reverse, breakpoints_core,
  breakpoints_extended, inspection, stack_core, stack_extended, variables_core, variables_extended,
  data_core, data_extended, context_core, context_extended, file, target, file_transfer,
  support_core, support_extended, misc, symbol_core, symbol_extended, catchpoint, tracepoint,
  tool_command, core, advertised,
}

abbrev pub transfers : Tool → Bool
transfers (file_transfer tool) = true
transfers _ = false

-- The raw guard without shell permits the bare operation of every structured tool but the three
-- file transfer tools, which it refuses and which core mode does not advertise.
pub tool_guarded :
    (tool : Tool)
    → (guarded (tool_command tool)
        ≡ (if transfers tool then rejected unknown_command_family else permitted tt))
      × ((advertised core tool && transfers tool) ≡ false)
unfolding tool_command
tool_guarded (session tool) = (guarded-session_command tool, refl)
tool_guarded (execution_core tool) = (guarded-execution_core_command tool, refl)
tool_guarded (execution_extended tool) = (guarded-execution_extended_command tool, refl)
tool_guarded (execution_reverse tool) = (guarded-execution_reverse_command tool, refl)
tool_guarded (breakpoints_core tool) = (guarded-breakpoints_core_command tool, refl)
tool_guarded (breakpoints_extended tool) = (guarded-breakpoints_extended_command tool, refl)
tool_guarded (inspection tool) = (guarded-inspection_command tool, refl)
tool_guarded (stack_core tool) = (guarded-stack_core_command tool, refl)
tool_guarded (stack_extended tool) = (guarded-stack_extended_command tool, refl)
tool_guarded (variables_core tool) = (guarded-variables_core_command tool, refl)
tool_guarded (variables_extended tool) = (guarded-variables_extended_command tool, refl)
tool_guarded (data_core tool) = (guarded-data_core_command tool, refl)
tool_guarded (data_extended tool) = (guarded-data_extended_command tool, refl)
tool_guarded (context_core tool) = (guarded-context_core_command tool, refl)
tool_guarded (context_extended tool) = (guarded-context_extended_command tool, refl)
tool_guarded (file tool) = (guarded-file_command tool, refl)
tool_guarded (target tool) = (guarded-target_command tool, refl)
tool_guarded (file_transfer tool) = (guarded-file_transfer_command tool, refl)
tool_guarded (support_core tool) = (guarded-support_core_command tool, refl)
tool_guarded (support_extended tool) = (guarded-support_extended_command tool, refl)
tool_guarded (misc tool) = (guarded-misc_command tool, refl)
tool_guarded (symbol_core tool) = (guarded-symbol_core_command tool, refl)
tool_guarded (symbol_extended tool) = (guarded-symbol_extended_command tool, refl)
tool_guarded (catchpoint tool) = (guarded-catchpoint_command tool, refl)
tool_guarded (tracepoint tool) = (guarded-tracepoint_command tool, refl)
