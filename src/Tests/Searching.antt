-- ===== src/Tests/Searching.antt =====
-- The node of Tests/Data, after it has sent all the requests for 80 that it may.
use madaodv_ns.RoutingTable
use madaodv_ns.Protocol
use madaodv_ns.Map
use madaodv_ns.Int
use madaodv_ns.Entry
use madaodv_ns.Base.{[], ◌∷◌}
use madaodv_ns.Int.{pos}
use madaodv_ns.Entry.{Entry, in_search}
use madaodv_ns.RoutingTable.{RoutingTable}
use madaodv_ns.Protocol.{Node}
use madaodv_ns.Tests.Data.{node, test_entry, test_table}

abbrev asked : Entry
asked = record (test_entry 80 0 2 35 in_search (pos 5000)) { req_count = 2 }

abbrev searching : Node
searching = record node { table = record test_table { entries = (80, asked) ∷ [] } }
