-- ===== src/Mcp/Tools.antt =====
-- toolDefs of internal/manager/mcp/tools.go.
use sit.Prelude.{Text, text}
use sit.Mcp.Values.{Value, string, array, object, item, no_items, field, no_fields, text_field}

-- one property of an input schema
schema : Text → Text → Value
schema type description =
    object (text_field (text "type") type (text_field (text "description") description no_fields))

-- the first tool's properties
command_schema : Value
unfolding schema
command_schema = object (
    text_field (text "type") (text "object") (
      field (text "properties")
        (object (
          field (text "command") (schema (text "string") (text "non-interactive shell command")) (
            field (text "timeout_sec")
              (schema (text "integer") (text "execution timeout, default 60")) no_fields)))
        (field (text "required") (array (item (string (text "command")) no_items)) no_fields)))

status_schema : Value
status_schema = object (
    text_field (text "type") (text "object")
      (field (text "properties") (object no_fields) no_fields))

tool : Text → Text → Value → Value
tool name description input = object (
    text_field (text "name") name
      (text_field (text "description") description (field (text "inputSchema") input no_fields)))

unfoldable pub tool_defs : Value
unfolding command_schema status_schema tool
tool_defs = array (
    item
      (tool (text "run_command")
        (text
          "Synchronously run a non-interactive shell command on the selected Node and return stdout/stderr/exit_code.")
        command_schema)
      (item
        (tool (text "get_status")
          (text "Return the selected Node's status, metrics, and last_seen.") status_schema)
        no_items))
