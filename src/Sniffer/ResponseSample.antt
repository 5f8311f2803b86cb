-- ===== src/Sniffer/ResponseSample.antt =====
-- A captured Modbus response as concrete data.
use ot_tcp_listener.Prelude.{All, ◌≢◌, [], ◌∷◌, refl, inl, arith}
use ot_tcp_listener.Prelude.Int.{sub_ℕ}
use ot_tcp_listener.Qt.Sample.{sample, number, digits, hex_digit, to_hex, arg}
use ot_tcp_listener.Modbus.{function_name, qint16}
use ot_tcp_listener.Sniffer.Printed.{have_no_semicolon-All, response_pieces}
use ot_tcp_listener.Modbus.Registers.{read_response}
use ot_tcp_listener.Modbus.Stream.{ModbusUnit, unit_bytes}
use ot_tcp_listener.Sniffer.Frames.{Frame, IsFrame}
use ot_tcp_listener.Sniffer.Session.{Response, IsResponse}

abbrev pub answer : ModbusUnit
answer = record {
  transaction = 7;
  protocol = 0;
  address = 1;
  pdu = read_response 3 (10 ∷ 20 ∷ 30 ∷ 40 ∷ []);
}

-- From a server at 10.0.0.5, with four bytes of IP options.
abbrev pub response_frame : Frame
response_frame = record {
  ethernet = record {
    ether_dhost = record { m0 = 0; m1 = 1; m2 = 2; m3 = 3; m4 = 4; m5 = 5 };
    ether_shost = record { m0 = 6; m1 = 7; m2 = 8; m3 = 9; m4 = 10; m5 = 11 };
    ether_type = 0x0800;
  };
  ip = record {
    ip_v = 4;
    ip_hl = 6;
    ip_tos = 0;
    ip_len = 61;
    ip_id = 1;
    ip_off = 0;
    ip_ttl = 64;
    ip_p = 6;
    ip_sum = 0;
    ip_src = record { a = 10; b = 0; c = 0; d = 5 };
    ip_dst = record { a = 10; b = 0; c = 0; d = 6 };
  };
  ip_options = 1 ∷ 1 ∷ 1 ∷ 0 ∷ [];
  tcp = record {
    th_sport = 502;
    th_dport = 40000;
    th_seq = 1;
    th_ack = 2;
    th_off = 5;
    th_x2 = 0;
    th_flags = 0x18;
    th_win = 1000;
    th_sum = 0;
    th_urp = 0;
  };
  tcp_options = [];
  payload = unit_bytes answer;
}

pub response_frame-IsFrame : IsFrame response_frame
response_frame-IsFrame = omega arith

abbrev pub response : Response
response = record {
  frame = response_frame;
  answer = answer;
  function = 3;
  registers = 10 ∷ 20 ∷ 30 ∷ 40 ∷ [];
}

pub response-IsResponse : IsResponse response
response-IsResponse = record {
  well_formed = response_frame-IsFrame;
  is_ip = refl;
  port = refl;
  payload = refl;
  pdu = refl;
  reads = inl refl;
  size = omega arith;
}

pub response_clean : All (λ t. All (λ c. c ≢ b';') t) (response_pieces sample response)
unfolding sample function_name number digits hex_digit to_hex arg qint16 sub_ℕ
response_clean = have_no_semicolon-All (response_pieces sample response) refl
