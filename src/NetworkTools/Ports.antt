-- ===== src/NetworkTools/Ports.antt =====
-- NetworkTools::getOpenPorts of networktools.h, for Linux and for Windows. What nmap prints, its
-- document, and what GetTcpTable and HeapAlloc give are arguments, and so are the functions of
-- QString.
pub mod Values
use ot_tcp_listener.Prelude.{
  ℕ, ◌+◌, ◌-◌, ◌*◌, ◌/◌, ◌%◌, ◌==◌, ◌||◌, Bool, false, not, ◌&&◌, List, [], ◌∷◌, ◌++◌, Option, none,
  some, ◌≡◌, refl, ◌∙◌, Text, codes, if◌then◌else◌, arith, append_assoc, append-nil, inl, inr,
  Bool-cases,
}
use ot_tcp_listener.Prelude.Int.{ℤ, pos}
use ot_tcp_listener.Net.{Ip, inet_ntoa}
use ot_tcp_listener.Net.Decimal.{to_string}

-- An attribute of an element: whether item(i) and toAttr are not null, its name and its value.
pub record Attribute : Type 0 where
  pub is_item : Bool
  pub is_attr : Bool
  pub name : Text
  pub value : Text

-- A node of the document named "port".
pub record PortNode : Type 0 where
  pub is_element : Bool
  pub attributes : List Attribute

-- A row of the table of TCP connections.
pub data TcpState : Type 0 where
  listen : TcpState
  estab : TcpState
  other_state : TcpState

pub record TcpRow : Type 0 where
  pub state : TcpState
  pub local_addr : Ip
  pub local_port : ℕ

-- How the second call of GetTcpTable ends: with NO_ERROR and rows, or with another number.
pub data TableReply : Type 0 where
  rows_read : List TcpRow → TableReply
  failed_with : ℕ → TableReply

-- What the calls give: whether the two calls of HeapAlloc succeed, whether the first call of
-- GetTcpTable wants more memory, and what the second one gives.
pub record TcpSystem : Type 0 where
  pub first_block : Bool
  pub insufficient : Bool
  pub second_block : Bool
  pub table : TableReply

-- The calls of MALLOC, where they succeed, of FREE and of printf.
pub data TableCall : Type 0 where
  heap_alloc : TableCall
  heap_free : TableCall
  print : Text → TableCall

-- ntohs of the low half of `dwLocalPort`
abbrev pub port_number : ℕ → ℕ
port_number p = p % 256 * 256 + p / 256 % 256

module _ (contains : Text → Text → Bool) where
  -- The loop over the attributes of an element.
  unfoldable pub add_ports : List Attribute → List Text → List Text
  add_ports [] result = result
  add_ports (a ∷ attributes) result = add_ports attributes (
      if a.is_item && (a.is_attr && contains a.name (codes "portid"))
      then result ++ a.value ∷ []
      else result)

  -- The loop over the nodes.
  unfoldable pub port_nodes : List PortNode → List Text → List Text
  port_nodes [] result = result
  port_nodes (elm ∷ nodes) result =
      port_nodes nodes (if elm.is_element then add_ports elm.attributes result else result)

  -- The branch for Linux; `document` is none where setContent fails.
  unfoldable pub open_ports_linux : Text → Option (List PortNode) → List Text
  open_ports_linux [] document = []
  open_ports_linux (c ∷ p_stdout) none = []
  open_ports_linux (c ∷ p_stdout) (some nodes) = port_nodes nodes []

  -- A round over the rows of the table.
  abbrev pub is_listening : TcpRow → Bool
  is_listening row = elim row.state [
    | listen ↦ not (contains (inet_ntoa row.local_addr) (codes "127.0.0.1"))
    | estab ↦ false
    | other_state ↦ false
  ]

  unfoldable pub listening_ports : (ℤ → Text) → List TcpRow → List Text → List Text
  listening_ports number [] result = result
  listening_ports number (row ∷ rows) result = listening_ports number rows (
      if is_listening row then result ++ number (pos (port_number row.local_port)) ∷ [] else result)

  -- From the second call of GetTcpTable on.
  unfoldable pub read_table : (ℤ → Text) → TableReply → List Text × List TableCall
  read_table number (rows_read rows) = (listening_ports number rows [], heap_free ∷ [])
  read_table number (failed_with code) = (
    [],
    print (codes "\tGetTcpTable failed with " ++ (to_string code ++ codes "\n")) ∷ heap_free ∷ [],
  )

  abbrev pub out_of_memory : TableCall
  out_of_memory = print (codes "Error allocating memory\n")

  -- The branch for Windows: the result, and the calls for memory and for output.
  unfoldable pub open_ports_windows : (ℤ → Text) → TcpSystem → List Text × List TableCall
  open_ports_windows number s =
      let (ports, calls) = read_table number s.table in
      let again : List Text × List TableCall =
        (ports, heap_alloc ∷ heap_free ∷ heap_alloc ∷ calls) in
      if not s.first_block
      then ([], out_of_memory ∷ [])
      else if s.insufficient
      then if s.second_block then again else ([], heap_alloc ∷ heap_free ∷ out_of_memory ∷ [])
      else (ports, heap_alloc ∷ calls)
