-- ===== src/Mcp/Tools/Examples.antt =====
-- The theorems on the tools at concrete calls.
use framewalk.Prelude.{
  ◌≡◌, ◌+◌, refl, true, false, ◌&&◌, none, some, [], ◌∷◌, ◌++◌, length, Bytes, bytes,
}
use framewalk.Codec.Error.{ok}
use framewalk.Codec.Utf8.{is_utf8}
use framewalk.Codec.CString.{parse_cstring}
use framewalk.Codec.Encode.{encode_parameter, encode_command}
use framewalk.Codec.Encode.Lines.{IsLine}
use framewalk.Mcp.RawGuard.{guarded, rejected, unknown_command_family}
use framewalk.Mcp.Types.{WatchCreateArgs}
use framewalk.Mcp.Tools.Breakpoints.{
  set_breakpoint, in_quotes, break_commands, breakpoints_extended_command,
}
use framewalk.Mcp.Tools.Variables.{watch_create, variables_core_command}
use framewalk.Mcp.Tools.Environment.{target_file_delete}
use framewalk.Mcp.Tools.Catalog.{
  Tool, breakpoints_core, file_transfer, tool_command, core, advertised,
}
use framewalk.Mcp.Tools.Lines.{tool_command-IsLine}
use framewalk.Mcp.Tools.Guarded.{transfers, tool_guarded}
use framewalk.Mcp.Tools.Wire.{break_commands-quoted, watch_create-separated}

-- A breakpoint whose location ends a line.
abbrev two_lines : Tool
two_lines = breakpoints_core (
    set_breakpoint (record {
      location = bytes "main\n-gdb-exit";
      condition = some (bytes "i > 3");
      temporary = true;
    }))

tool_command-IsLine_example :
    (body : Bytes) × (encode_command (some 7) (tool_command two_lines) ≡ body ++ 10 ∷ [])
    × IsLine body
tool_command-IsLine_example = tool_command-IsLine (some 7) two_lines

abbrev deletes : Tool
deletes = file_transfer (target_file_delete (record { target_file = bytes "/etc/motd" }))

tool_guarded_example :
    (guarded (tool_command deletes) ≡ rejected unknown_command_family)
    × ((advertised core deletes && transfers deletes) ≡ false)
tool_guarded_example = tool_guarded deletes

abbrev print_x : Bytes
print_x = bytes "print x"

print_x_utf8 : is_utf8 (in_quotes print_x) ≡ true
unfolding is_utf8
print_x_utf8 = refl

break_commands-quoted_example :
    ((breakpoints_extended_command
        (break_commands (record { id = bytes "1"; commands = print_x ∷ [] }))).parameters
      ≡ bytes "1" ∷ in_quotes print_x ∷ [])
    × (parse_cstring (record { rest = encode_parameter (in_quotes print_x) ++ 10 ∷ []; pos = 19 })
        ≡ ok (
          in_quotes print_x,
          record { rest = 10 ∷ []; pos = 19 + length (encode_parameter (in_quotes print_x)) },
        ))
break_commands-quoted_example = break_commands-quoted (bytes "1") print_x (10 ∷ []) 19 print_x_utf8

abbrev watched : WatchCreateArgs
watched = record { expression = bytes "i" }

watch_create-separated_example :
    encode_command none (variables_core_command (watch_create watched))
    ≡ bytes "-var-create -- - * " ++ (encode_parameter (bytes "i") ++ 10 ∷ [])
watch_create-separated_example = watch_create-separated watched
