-- ===== src/NetworkTools/Ports/Values.antt =====
-- Which ports getOpenPorts gives, on Linux and on Windows, and what it does with its memory.
use ot_tcp_listener.Prelude.{
  ℕ, ◌+◌, ◌-◌, ◌*◌, ◌/◌, ◌%◌, ◌<◌, All, map, ap, ◌==◌, ◌||◌, Bool, not, ◌&&◌, List, [], ◌∷◌, ◌++◌,
  Option, none, some, ◌≡◌, refl, ◌∙◌, Text, codes, if◌then◌else◌, arith, append_assoc, append-nil,
  inl, inr, Bool-cases,
}
use ot_tcp_listener.Prelude.Int.{ℤ, pos}
use ot_tcp_listener.Net.{Ip, inet_ntoa}
use ot_tcp_listener.NetworkTools.Ports.{
  TcpState, listen, estab, other_state, Attribute, PortNode, add_ports, port_nodes,
  open_ports_linux, TcpRow, TableReply, rows_read, failed_with, TcpSystem, TableCall, heap_alloc,
  heap_free, print, port_number, is_listening, listening_ports, read_table, open_ports_windows,
}

-- The blocks that are in use after some calls.
abbrev pub blocks_after : ℕ → List TableCall → Option ℕ
blocks_after n [] = some n
blocks_after n (heap_alloc ∷ calls) = blocks_after (n + 1) calls
blocks_after n (print text ∷ calls) = blocks_after n calls
blocks_after n (heap_free ∷ calls) = if n == 0 then none else blocks_after (n - 1) calls

-- The listening ports of a table, by the rows.
abbrev ports_of : (Text → Text → Bool) → (ℤ → Text) → List TcpRow → List Text
ports_of contains number [] = []
ports_of contains number (row ∷ rows) =
    let rest = ports_of contains number rows in
    if is_listening contains row then number (pos (port_number row.local_port)) ∷ rest else rest

listening_ports-append :
    (contains : Text → Text → Bool) (number : ℤ → Text) (rows : List TcpRow) (result : List Text)
    → listening_ports contains number rows result ≡ result ++ ports_of contains number rows
unfolding listening_ports
listening_ports-append contains number [] result = rw (append-nil result)
listening_ports-append contains number (row ∷ rows) result =
    elim (Bool-cases (is_listening contains row)) [
      | inl y ↦
          let text = number (pos (port_number row.local_port)) in
          rw y (
            listening_ports-append contains number rows (result ++ text ∷ [])
            ∙ append_assoc result (text ∷ []) (ports_of contains number rows))
      | inr n ↦ rw n (listening_ports-append contains number rows result)
    ]

-- The ports of the table if it is read: the memory is there and the second call ends well.
abbrev ports_read : (Text → Text → Bool) → (ℤ → Text) → TableReply → List Text
ports_read contains number (rows_read rows) = ports_of contains number rows
ports_read contains number (failed_with code) = []

abbrev pub has_memory : TcpSystem → Bool
has_memory s = s.first_block && (not s.insufficient || s.second_block)

-- Reading the table frees the block that it stands in.
read_table-ports_read :
    (contains : Text → Text → Bool) (number : ℤ → Text) (reply : TableReply)
    → let (ports, calls) = read_table contains number reply in
      (ports ≡ ports_read contains number reply) × (blocks_after 1 calls ≡ some 0)
unfolding read_table
read_table-ports_read contains number (rows_read rows) =
    (listening_ports-append contains number rows [], refl)
read_table-ports_read contains number (failed_with code) = (refl, refl)

open_ports_windows_lem :
    (contains : Text → Text → Bool) (number : ℤ → Text) (s : TcpSystem)
    → let (ports, calls) = open_ports_windows contains number s in
      (ports ≡ (if has_memory s then ports_read contains number s.table else []))
      × (blocks_after 0 calls ≡ some 0)
unfolding open_ports_windows
open_ports_windows_lem contains number s =
    ground (arith, read_table-ports_read contains number s.table)

-- A TCP connection, by its state, its address and its port, with what Windows leaves in the high
-- half of the port's number.
pub record Connection : Type 0 where
  pub state : TcpState
  pub address : Ip
  pub port : ℕ
  pub high : ℕ

-- Its row, in which the two bytes of the port stand in network byte order.
abbrev pub row_of : Connection → TcpRow
row_of c = record {
  state = c.state;
  local_addr = c.address;
  local_port = c.high * 65536 + (c.port % 256 * 256 + c.port / 256);
}

abbrev pub table_of : ℕ → Option (List Connection) → TableReply
table_of code none = failed_with code
table_of code (some connections) = rows_read (map row_of connections)

-- The ports on which somebody listens at an address whose text has no 127.0.0.1 in it.
abbrev pub open_ports_of : (Text → Text → Bool) → (ℤ → Text) → List Connection → List Text
open_ports_of contains number [] = []
open_ports_of contains number (c ∷ connections) =
    let rest = open_ports_of contains number connections in
    let listed =
      if contains (inet_ntoa c.address) (codes "127.0.0.1")
      then rest
      else number (pos c.port) ∷ rest in
    elim c.state [ listen ↦ listed | estab ↦ rest | other_state ↦ rest ]

abbrev pub HasPort : Connection → Type 0
HasPort c = c.port < 65536

port_number-row_of :
    (high port : ℕ)
    → port < 65536
    → port_number (high * 65536 + (port % 256 * 256 + port / 256)) ≡ port
port_number-row_of high port h = omega arith

ports_of_connections :
    (contains : Text → Text → Bool) (number : ℤ → Text) (connections : List Connection)
    → All HasPort connections
    → ports_of contains number (map row_of connections) ≡ open_ports_of contains number connections
ports_of_connections contains number [] h = refl
ports_of_connections contains number (c ∷ connections) h =
    let rest = ports_of_connections contains number connections h.1 in
    ground (arith, port_number-row_of c.high c.port h.0, rest)

-- The ports of the connections, if the memory is there and the table is read.
abbrev pub ports_told :
    (Text → Text → Bool) → (ℤ → Text) → TcpSystem → Option (List Connection) → List Text
ports_told contains number s none = []
ports_told contains number s (some connections) =
    if has_memory s then open_ports_of contains number connections else []

abbrev pub AllPorts : Option (List Connection) → Type 0
AllPorts none = Unit
AllPorts (some connections) = All HasPort connections

open_ports_windows-ports_told :
    (contains : Text → Text → Bool) (number : ℤ → Text) (s : TcpSystem) (code : ℕ)
    (connections : Option (List Connection))
    → AllPorts connections
    → let (ports, calls) =
        open_ports_windows contains number (record s { table = table_of code connections }) in
      (ports ≡ ports_told contains number s connections) × (blocks_after 0 calls ≡ some 0)
open_ports_windows-ports_told contains number s code none h =
    let (ports, freed) =
      open_ports_windows_lem contains number (record s { table = failed_with code }) in
    (ports ∙ ground arith, freed)
open_ports_windows-ports_told contains number s code (some connections) h =
    let told = ports_of_connections contains number connections h in
    let (ports, freed) =
      open_ports_windows_lem contains number
        (record s { table = rows_read (map row_of connections) }) in
    (ports ∙ ap (λ l. if has_memory s then l else []) told, freed)

-- The values of the attributes that are named for a port's number, of one element and of some.
abbrev pub port_values : (Text → Text → Bool) → List Attribute → List Text
port_values contains [] = []
port_values contains (a ∷ attributes) =
    let rest = port_values contains attributes in
    if a.is_item && (a.is_attr && contains a.name (codes "portid")) then a.value ∷ rest else rest

abbrev pub node_values : (Text → Text → Bool) → List PortNode → List Text
node_values contains [] = []
node_values contains (elm ∷ nodes) =
    let rest = node_values contains nodes in
    if elm.is_element then port_values contains elm.attributes ++ rest else rest

add_ports-append :
    (contains : Text → Text → Bool) (attributes : List Attribute) (result : List Text)
    → add_ports contains attributes result ≡ result ++ port_values contains attributes
unfolding add_ports
add_ports-append contains [] result = rw (append-nil result)
add_ports-append contains (a ∷ attributes) result =
    elim (Bool-cases (a.is_item && (a.is_attr && contains a.name (codes "portid")))) [
      | inl y ↦ rw y (
          add_ports-append contains attributes (result ++ a.value ∷ [])
          ∙ append_assoc result (a.value ∷ []) (port_values contains attributes))
      | inr n ↦ rw n (add_ports-append contains attributes result)
    ]

port_nodes-append :
    (contains : Text → Text → Bool) (nodes : List PortNode) (result : List Text)
    → port_nodes contains nodes result ≡ result ++ node_values contains nodes
unfolding port_nodes
port_nodes-append contains [] result = rw (append-nil result)
port_nodes-append contains (elm ∷ nodes) result = elim (Bool-cases elm.is_element) [
  | inl y ↦
      let values = port_values contains elm.attributes in
      rw (y, add_ports-append contains elm.attributes result)
        (port_nodes-append contains nodes (result ++ values)
          ∙ append_assoc result values (node_values contains nodes))
  | inr n ↦ rw n (port_nodes-append contains nodes result)
]

-- The port numbers of what nmap prints and of the document that it is, if it is one.
abbrev pub document_ports : (Text → Text → Bool) → Text → Option (List PortNode) → List Text
document_ports contains [] document = []
document_ports contains (c ∷ p_stdout) none = []
document_ports contains (c ∷ p_stdout) (some nodes) = node_values contains nodes

open_ports_linux_lem :
    (contains : Text → Text → Bool) (p_stdout : Text) (document : Option (List PortNode))
    → open_ports_linux contains p_stdout document ≡ document_ports contains p_stdout document
unfolding open_ports_linux
open_ports_linux_lem contains [] document = refl
open_ports_linux_lem contains (c ∷ p_stdout) none = refl
open_ports_linux_lem contains (c ∷ p_stdout) (some nodes) = port_nodes-append contains nodes []

-- Of a table of any TCP connections, whose rows have the port with its two bytes in network byte
-- order and anything in the high half: getOpenPorts of Windows gives the ports on which somebody
-- listens at an address whose text does not contain 127.0.0.1, in their order, if the memory is
-- there and the table is read, and none otherwise; on every path each block of memory is freed,
-- and none twice. getOpenPorts of Linux gives the values of all attributes with portid in their
-- name, of all elements named port, in their order, if nmap prints a document, and none otherwise.
pub open_ports_values :
    (contains : Text → Text → Bool) (number : ℤ → Text) (s : TcpSystem) (code : ℕ)
    (connections : Option (List Connection)) (p_stdout : Text) (document : Option (List PortNode))
    → AllPorts connections
    → let (ports, calls) =
        open_ports_windows contains number (record s { table = table_of code connections }) in
      (ports ≡ ports_told contains number s connections)
      × (blocks_after 0 calls ≡ some 0)
      × (open_ports_linux contains p_stdout document ≡ document_ports contains p_stdout document)
open_ports_values contains number s code connections p_stdout document h =
    let (values, freed) = open_ports_windows-ports_told contains number s code connections h in
    (values, freed, open_ports_linux_lem contains p_stdout document)
