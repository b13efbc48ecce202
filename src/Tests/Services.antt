-- ===== src/Tests/Services.antt =====
-- The registrations of pkg/mesh/mesh.go with two tools, of which one cannot be served.
use jb_mesh.Base.{[], not, true, ◌∷◌, ◌≡◌, refl}
use jb_mesh.Base.Text.{same, has_prefix, lit}
use jb_mesh.Mesh.{
  Nats, Registration, Mesh, register_tool, re_register_tools, unregister_tool, served_names,
  subject_prefix, re_register_tools-unregister_tool,
}

abbrev nats : Nats
nats = record {
  adds_service = λ name. true;
  adds_endpoint = λ name method. not (same method (lit "bad"));
  subscribes = λ subject. true;
}

abbrev db : Registration
db = record { name = lit "db"; methods = lit "get" ∷ [] }

abbrev web : Registration
web = record { name = lit "web"; methods = lit "bad" ∷ [] }

abbrev client : Mesh
client = record {
  node_name = lit "n";
  services = lit "db" ∷ [];
  node_subs = lit "node.n.tools.db.get" ∷ [];
  registrations = db ∷ web ∷ [];
}

register_test :
    (register_tool nats db
      (record { node_name = lit "n"; services = []; node_subs = []; registrations = [] })).0
    ≡ record client { registrations = db ∷ [] }
unfolding register_tool same subject_prefix
register_test = refl

unregister_test :
    (unregister_tool (lit "db") client).0 ≡ record client { services = []; node_subs = [] }
unfolding unregister_tool same subject_prefix has_prefix
unregister_test = refl

re_register_tools-unregister_tool_example :
    (re_register_tools nats (unregister_tool (lit "db") client).0 ≡ re_register_tools nats client)
    × ((re_register_tools nats client).services ≡ served_names nats client.registrations)
re_register_tools-unregister_tool_example =
    re_register_tools-unregister_tool nats (lit "db") client db (web ∷ []) refl
