-- ===== src/Guacamole/Mapping/Projection.antt =====
-- The two projections list the same labs.
use labforge.Base.{ℕ, String, ◌≡◌, refl, ap, ◌∙◌, Option, none, some, List, [], ◌∷◌, ◌++◌}
use labforge.Web.{GuacamoleConfig}
use labforge.Nodes.Runtimes.{truthy}
use labforge.Orchestrator.Sync.{nonzero}
use labforge.Guacamole.Mapping.{
  RenderRow, JdbcRow, authorize_lines, row_lines, lines_of, rdp_host, unlines, document,
  render_user_mapping_xml, push_jdbc, rows_to_jdbc,
}

-- The block of a database row.
block : JdbcRow → List String
block j =
    authorize_lines j.guac_user j.guac_password j.hostname j.port j.rdp_username j.instance_id
      j.rdp_password

unfoldable pub blocks : List JdbcRow → List String
unfolding block
blocks [] = []
blocks (j ∷ js) = block j ++ blocks js

row_blocks :
    (r : RenderRow) (user password : Option String) (port : Option ℕ)
    (rdp_user host : Option String) (out : List JdbcRow)
    → row_lines r user password port rdp_user host ++ blocks out
      ≡ blocks (push_jdbc r user password port rdp_user host out)
unfolding row_lines push_jdbc blocks
row_blocks r (some u) (some p) (some n) (some x) (some h) out = refl
row_blocks r (some u) (some p) (some n) (some x) none out = refl
row_blocks r (some u) (some p) (some n) none h out = refl
row_blocks r (some u) (some p) none x h out = refl
row_blocks r (some u) none n x h out = refl
row_blocks r none p n x h out = refl

lines-blocks :
    (conf : GuacamoleConfig) (rows : List RenderRow)
    → lines_of conf rows ≡ blocks (rows_to_jdbc rows conf)
unfolding lines_of rows_to_jdbc
lines-blocks conf [] = unfold blocks in refl
lines-blocks conf (r ∷ rs) =
    ap (λ (ls : List String). own ++ ls) (lines-blocks conf rs)
    ∙ row_blocks r (truthy r.instance.guacamole_user) (truthy r.instance.guacamole_password)
        (nonzero r.instance.rdp_host_port) (truthy r.spec.rdp_username) (rdp_host conf r.node)
        (rows_to_jdbc rs conf)
  where
    own : List String
    own =
        row_lines r (truthy r.instance.guacamole_user) (truthy r.instance.guacamole_password)
          (nonzero r.instance.rdp_host_port) (truthy r.spec.rdp_username) (rdp_host conf r.node)

-- The two projections of a list of labs agree: the file that `renderUserMappingXml` makes of it is the rendering
-- of the rows that `rowsToJdbc` makes of it, one block each, in the same order. What the database keeps
-- beside these rows is not part of it.
pub render_user_mapping_xml-rows :
    (rows : List RenderRow) (conf : GuacamoleConfig)
    → render_user_mapping_xml rows conf ≡ unlines (document (blocks (rows_to_jdbc rows conf)))
unfolding render_user_mapping_xml
render_user_mapping_xml-rows rows conf = ap (λ ls. unlines (document ls)) (lines-blocks conf rows)
