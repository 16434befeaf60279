-- ===== src/Tests/Samples.antt =====
-- A service of three functions: a handler that calls a store, which writes to a table, and a worker apart.
use verdi_go.Prelude.{false, none, [], ◌∷◌, bool_Eq, nat_Eq, list_Eq, Str, codes, Str_Eq, pair_Eq}
use verdi_go.Graph.Types.{Graph, Node, Edge, Obligation}

abbrev pub handler : Str
handler = codes "h"

abbrev pub store : Str
store = codes "s"

abbrev pub worker : Str
worker = codes "w"

abbrev pub write : Str
write = codes "boundary:db INSERT t"

abbrev pub declare : Str → Node
declare n = record {
  fqn = n;
  sig = [];
  tier = 1;
  pkg = [];
  fallible = false;
  file = [];
  line = 1;
  end_line = 2;
}

abbrev pub call_edge : Str → Str → Edge
call_edge f t = record { from = f; to = t; tier = 1; boundary = []; concurrent = false; via = [] }

abbrev pub write_edge : Edge
write_edge = record (call_edge store write) { boundary = codes "outbound-sync" }

abbrev pub proved : Obligation
proved = record {
  rule = codes "tx";
  kind = codes "release";
  fn = store;
  site = [];
  status = codes "SATISFIED";
  detail = [];
}

abbrev pub service : Graph
service = record {
  stamp = [];
  tool = [];
  entrypoint = [];
  algo = [];
  caveats = [];
  nodes = declare handler ∷ declare store ∷ declare worker ∷ [];
  edges = call_edge handler store ∷ write_edge ∷ [];
  blind_spots = [];
  obligations = proved ∷ [];
  effect_order = [];
  entrypoints = [];
  composition_roots = [];
  omitted_packages = [];
  frontier = none;
  annotations = [];
}
