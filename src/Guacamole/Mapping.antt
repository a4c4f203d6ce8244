-- ===== src/Guacamole/Mapping.antt =====
-- The two projections of the labs for the gateway, of packages/control-plane/src/runtime/guacamole.ts: the
-- file user-mapping.xml (`renderUserMappingXml`) and the rows for the database (`rowsToJdbc`), from the
-- rows that `regenerateUserMapping` selects.
pub mod Projection
use labforge.Base.{
  ℕ, String, ◌<>◌, Option, none, some, List, [], ◌∷◌, ◌++◌, ◌&&◌, is_some, filter, or_else,
}
use labforge.Base.Texts.{show}
use labforge.Data.{Instance, Node, Spec}
use labforge.Data.Statuses.{is_counted}
use labforge.World.{World, Env}
use labforge.Table.{lookup}
use labforge.Store.{node_key, template_key}
use labforge.Web.{GuacamoleConfig}
use labforge.Nodes.Runtimes.{truthy}
use labforge.Orchestrator.Sync.{nonzero}
use labforge.Orchestrator.Viewer.{safe_parse_spec}
use labforge.Quoting.Xml.{escape_xml_attr}

pub record RenderRow : Type 0 where
  pub instance : Instance
  pub node : Option Node
  pub spec : Spec

-- GuacJdbcRow
pub record JdbcRow : Type 0 where
  pub instance_id : String
  pub guac_user : String
  pub guac_password : String
  pub hostname : String
  pub port : ℕ
  pub rdp_username : String
  pub rdp_password : Option String

abbrev pub node_at : Option String → World → Option Node
node_at none w = none
node_at (some id) w = lookup node_key id w.nodes

-- A row whose spec does not parse is passed over.
abbrev pub with_spec : Instance → Option Node → Option Spec → List RenderRow → List RenderRow
with_spec i _ none rest = rest
with_spec i host (some spec) rest = record { instance = i; node = host; spec = spec } ∷ rest

unfoldable pub with_specs : Env → World → List Instance → List RenderRow
with_specs env w [] = []
with_specs env w (i ∷ is) =
    with_spec i (node_at i.node_id w)
      (safe_parse_spec env (lookup template_key i.template_id w.templates)) (with_specs env w is)

-- `guacamoleUser: { not: null }, status: { notIn: ['terminated', 'failed'] }`
unfoldable pub mapping_rows : Env → World → List RenderRow
unfolding with_specs
mapping_rows env w =
    with_specs env w
      (filter (λ (i : Instance). is_some i.guacamole_user && is_counted i.status) w.instances)

abbrev pub proxy_host : Option Node → Option String
proxy_host none = none
proxy_host (some n) = truthy (some n.proxy_host)

-- The host name, or none where it is empty.
unfoldable pub rdp_host : GuacamoleConfig → Option Node → Option String
rdp_host conf node = truthy (some (or_else (proxy_host node) (or_else conf.default_rdp_host "")))

abbrev pub password_line : Option String → List String
password_line none = []
password_line (some p) =
    ("      <param name=\"password\">" <> (escape_xml_attr p <> "</param>")) ∷ []

-- The block of one lab.
unfoldable pub authorize_lines :
    (user password host : String)
    → (port : ℕ) → (rdp_user instance_id : String) → (rdp_password : Option String) → List String
unfolding show escape_xml_attr
authorize_lines user password host port rdp_user instance_id rdp_password =
    ("  <authorize username=\""
      <> (escape_xml_attr user <> ("\" password=\"" <> (escape_xml_attr password <> "\">"))))
    ∷ ("    <connection name=\"" <> (escape_xml_attr instance_id <> "\">"))
    ∷ "      <protocol>rdp</protocol>"
    ∷ ("      <param name=\"hostname\">" <> (escape_xml_attr host <> "</param>"))
    ∷ ("      <param name=\"port\">" <> (show port <> "</param>"))
    ∷ ("      <param name=\"username\">" <> (escape_xml_attr rdp_user <> "</param>"))
    ∷ (password_line (truthy rdp_password)
        ++ "      <param name=\"security\">nla</param>"
          ∷ "      <param name=\"ignore-cert\">true</param>"
          ∷ "      <param name=\"resize-method\">display-update</param>"
          ∷ "      <param name=\"enable-wallpaper\">false</param>"
          ∷ "      <param name=\"enable-theming\">false</param>"
          ∷ "      <param name=\"enable-font-smoothing\">true</param>"
          ∷ "      <param name=\"color-depth\">24</param>" ∷ "    </connection>" ∷ "  </authorize>"
          ∷ [])

-- The four guards, each a `continue`.
unfoldable pub row_lines :
    RenderRow
    → (user password : Option String) → (port : Option ℕ) → (rdp_user host : Option String)
    → List String
unfolding authorize_lines
row_lines r (some user) (some password) (some port) (some rdp_user) (some host) =
    authorize_lines user password host port rdp_user r.instance.id r.spec.rdp_password
row_lines r _ _ _ _ _ = []

unfoldable pub lines_of : GuacamoleConfig → List RenderRow → List String
unfolding row_lines rdp_host
lines_of conf [] = []
lines_of conf (r ∷ rs) =
    row_lines r (truthy r.instance.guacamole_user) (truthy r.instance.guacamole_password)
      (nonzero r.instance.rdp_host_port) (truthy r.spec.rdp_username) (rdp_host conf r.node)
    ++ lines_of conf rs

-- `lines.join('\n') + '\n'`
unfoldable pub unlines : List String → String
unlines [] = ""
unlines (l ∷ ls) = l <> ("\n" <> unlines ls)

abbrev pub document : List String → List String
document body =
    "<?xml version=\"1.0\" encoding=\"UTF-8\"?>"
    ∷ "<!-- AUTOGENERATED by labforge control-plane. Do not edit by hand. -->"
    ∷ "<user-mapping>"
    ∷ (body ++ "</user-mapping>" ∷ [])

unfoldable pub render_user_mapping_xml : List RenderRow → GuacamoleConfig → String
unfolding lines_of unlines
render_user_mapping_xml rows conf = unlines (document (lines_of conf rows))

unfoldable pub push_jdbc :
    RenderRow
    → (user password : Option String) → (port : Option ℕ) → (rdp_user host : Option String)
    → List JdbcRow
    → List JdbcRow
push_jdbc r (some user) (some password) (some port) (some rdp_user) (some host) out =
    record {
      instance_id = r.instance.id;
      guac_user = user;
      guac_password = password;
      hostname = host;
      port = port;
      rdp_username = rdp_user;
      rdp_password = r.spec.rdp_password;
    }
    ∷ out
push_jdbc r _ _ _ _ _ out = out

unfoldable pub rows_to_jdbc : List RenderRow → GuacamoleConfig → List JdbcRow
unfolding push_jdbc rdp_host
rows_to_jdbc [] conf = []
rows_to_jdbc (r ∷ rs) conf =
    push_jdbc r (truthy r.instance.guacamole_user) (truthy r.instance.guacamole_password)
      (nonzero r.instance.rdp_host_port) (truthy r.spec.rdp_username) (rdp_host conf r.node)
      (rows_to_jdbc rs conf)
