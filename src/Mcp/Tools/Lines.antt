-- ===== src/Mcp/Tools/Lines.antt =====
-- Every structured tool sends one line.
pub mod Control
pub mod Data
use framewalk.Prelude.{◌≡◌, refl, Option, [], ◌∷◌, ◌++◌, Bytes, arith}
use framewalk.Codec.Ast.{Token}
use framewalk.Codec.Command.{MiCommand, parameter, option, option_with}
use framewalk.Codec.Encode.{encode_command}
use framewalk.Codec.Encode.Lines.{IsLine, AreNamed, encode_command-IsLine}
use framewalk.Mcp.Tools.Lines.Control.{
  session_command-IsNamed, execution_core_command-IsNamed, execution_extended_command-IsNamed,
  execution_reverse_command-IsNamed, breakpoints_core_command-IsNamed,
  breakpoints_extended_command-IsNamed, inspection_command-IsNamed, stack_core_command-IsNamed,
  stack_extended_command-IsNamed,
}
use framewalk.Mcp.Tools.Lines.Data.{
  variables_core_command-IsNamed, variables_extended_command-IsNamed, data_core_command-IsNamed,
  data_extended_command-IsNamed, context_core_command-IsNamed, context_extended_command-IsNamed,
  file_command-IsNamed, target_command-IsNamed, file_transfer_command-IsNamed,
  support_core_command-IsNamed, support_extended_command-IsNamed, misc_command-IsNamed,
  symbol_core_command-IsNamed, symbol_extended_command-IsNamed, catchpoint_command-IsNamed,
  tracepoint_command-IsNamed,
}
use framewalk.Mcp.Tools.Catalog.{
  Tool, session, execution_core, execution_extended, execution_reverse, breakpoints_core,
  breakpoints_extended, inspection, stack_core, stack_extended, variables_core, variables_extended,
  data_core, data_extended, context_core, context_extended, file, target, file_transfer,
  support_core, support_extended, misc, symbol_core, symbol_extended, catchpoint, tracepoint,
  tool_command,
}

-- The command of every structured tool, whatever its arguments hold, is encoded as exactly one
-- line.
pub tool_command-IsLine :
    (token : Option Token) (tool : Tool)
    → (body : Bytes) × (encode_command token (tool_command tool) ≡ body ++ 10 ∷ []) × IsLine body
unfolding tool_command
tool_command-IsLine token (session tool) =
    let (o, s) = session_command-IsNamed tool in encode_command-IsLine token _ o s
tool_command-IsLine token (execution_core tool) =
    let (o, s) = execution_core_command-IsNamed tool in encode_command-IsLine token _ o s
tool_command-IsLine token (execution_extended tool) =
    let (o, s) = execution_extended_command-IsNamed tool in encode_command-IsLine token _ o s
tool_command-IsLine token (execution_reverse tool) =
    let (o, s) = execution_reverse_command-IsNamed tool in encode_command-IsLine token _ o s
tool_command-IsLine token (breakpoints_core tool) =
    let (o, s) = breakpoints_core_command-IsNamed tool in encode_command-IsLine token _ o s
tool_command-IsLine token (breakpoints_extended tool) =
    let (o, s) = breakpoints_extended_command-IsNamed tool in encode_command-IsLine token _ o s
tool_command-IsLine token (inspection tool) =
    let (o, s) = inspection_command-IsNamed tool in encode_command-IsLine token _ o s
tool_command-IsLine token (stack_core tool) =
    let (o, s) = stack_core_command-IsNamed tool in encode_command-IsLine token _ o s
tool_command-IsLine token (stack_extended tool) =
    let (o, s) = stack_extended_command-IsNamed tool in encode_command-IsLine token _ o s
tool_command-IsLine token (variables_core tool) =
    let (o, s) = variables_core_command-IsNamed tool in encode_command-IsLine token _ o s
tool_command-IsLine token (variables_extended tool) =
    let (o, s) = variables_extended_command-IsNamed tool in encode_command-IsLine token _ o s
tool_command-IsLine token (data_core tool) =
    let (o, s) = data_core_command-IsNamed tool in encode_command-IsLine token _ o s
tool_command-IsLine token (data_extended tool) =
    let (o, s) = data_extended_command-IsNamed tool in encode_command-IsLine token _ o s
tool_command-IsLine token (context_core tool) =
    let (o, s) = context_core_command-IsNamed tool in encode_command-IsLine token _ o s
tool_command-IsLine token (context_extended tool) =
    let (o, s) = context_extended_command-IsNamed tool in encode_command-IsLine token _ o s
tool_command-IsLine token (file tool) =
    let (o, s) = file_command-IsNamed tool in encode_command-IsLine token _ o s
tool_command-IsLine token (target tool) =
    let (o, s) = target_command-IsNamed tool in encode_command-IsLine token _ o s
tool_command-IsLine token (file_transfer tool) =
    let (o, s) = file_transfer_command-IsNamed tool in encode_command-IsLine token _ o s
tool_command-IsLine token (support_core tool) =
    let (o, s) = support_core_command-IsNamed tool in encode_command-IsLine token _ o s
tool_command-IsLine token (support_extended tool) =
    let (o, s) = support_extended_command-IsNamed tool in encode_command-IsLine token _ o s
tool_command-IsLine token (misc tool) =
    let (o, s) = misc_command-IsNamed tool in encode_command-IsLine token _ o s
tool_command-IsLine token (symbol_core tool) =
    let (o, s) = symbol_core_command-IsNamed tool in encode_command-IsLine token _ o s
tool_command-IsLine token (symbol_extended tool) =
    let (o, s) = symbol_extended_command-IsNamed tool in encode_command-IsLine token _ o s
tool_command-IsLine token (catchpoint tool) =
    let (o, s) = catchpoint_command-IsNamed tool in encode_command-IsLine token _ o s
tool_command-IsLine token (tracepoint tool) =
    let (o, s) = tracepoint_command-IsNamed tool in encode_command-IsLine token _ o s
