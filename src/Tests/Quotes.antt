-- ===== src/Tests/Quotes.antt =====
-- Quoted texts, and the rows of the gateway.
use labforge.Base.{refl, ◌≡◌, true, none, some, [], ◌∷◌}
use labforge.Quoting.Shell.{sh_quote, sh_quote-reads, shell_word, plain}
use labforge.Quoting.{replace_char}
use labforge.Quoting.Csv.{csv_escape, needs_quotes}
use labforge.Web.{GuacamoleConfig}
use labforge.Guacamole.Mapping.{RenderRow, unlines, document, render_user_mapping_xml, rows_to_jdbc}
use labforge.Guacamole.Mapping.Projection.{blocks, render_user_mapping_xml-rows}
use labforge.Tests.{a_spec, live_lab, a_node}

sh_quote-reads_example : shell_word plain (sh_quote "it's; rm -rf /") ≡ some "it's; rm -rf /"
sh_quote-reads_example = sh_quote-reads "it's; rm -rf /"

commas_quoted : csv_escape "Linux, \"basics\"" ≡ "\"Linux, \"\"basics\"\"\""
unfolding csv_escape needs_quotes replace_char
commas_quoted = refl

abbrev a_row : RenderRow
a_row = record {
  instance = record live_lab {
    guacamole_user = some "lab-4";
    guacamole_password = some "pw";
    rdp_host_port = some 33890;
  };
  node = some (a_node "n1" 1);
  spec = record a_spec { rdp_username = some "Docker"; rdp_password = some "a&b" };
}

abbrev skipped : RenderRow
skipped = record a_row { instance = live_lab }

abbrev a_gateway : GuacamoleConfig
a_gateway = record {
  enabled = true;
  public_url = "https://gw.example.com";
  default_rdp_host = none;
}

render_user_mapping_xml-rows_example :
    render_user_mapping_xml (skipped ∷ a_row ∷ []) a_gateway
    ≡ unlines (document (blocks (rows_to_jdbc (skipped ∷ a_row ∷ []) a_gateway)))
render_user_mapping_xml-rows_example = render_user_mapping_xml-rows (skipped ∷ a_row ∷ []) a_gateway
