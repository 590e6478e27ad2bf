-- ===== src/Netboot/Tests.antt =====
-- A loader, lines and packets, and the theorems on them.
use os_open_blt.Base.{ℕ, ◌≡◌, refl, false, none, List, [], ◌∷◌, ◌++◌, arith}
use os_open_blt.Netboot.Console.{Settings, command, Line, newline, keypress, read_ip}
use os_open_blt.Netboot.Console.Editor.{edits, presses, are_typed, keypress-command}
use os_open_blt.Netboot.Console.Address.{quad, read_ip-quad}
use os_open_blt.Libc.Snprintf.Whole.{all_shown}
use os_open_blt.Netboot.Packets.{
  Netboot, half, ipchksum, bytes, field, ntohs, memcmp, receive, halves, checksum_loop,
}
use os_open_blt.Netboot.Packets.Checksum.{are_bytes, is_even, ipchksum-filled}
use os_open_blt.Netboot.Packets.Answers.{arrived, arrived-small, IsNetboot}
use os_open_blt.Netboot.Packets.Loads.{IsForLoader, IsLoaded, receive-IsLoaded}
use os_open_blt.Netboot.Packets.Arp.{Answers, receive-Answers}

abbrev no_line : Line
no_line = record { linebuf = λ i. 0; lp = 9 }

abbrev first_settings : Settings
first_settings = record { ip = 10 ∷ 10 ∷ 10 ∷ 10 ∷ []; param = []; is_manual = false }

-- h, BS, g, o.
abbrev keys : List ℕ
keys = b'h' ∷ 8 ∷ b'g' ∷ b'o' ∷ []

keypress-command_example :
    ((keypress 13 (presses keys (newline no_line) first_settings) first_settings).0
      ≡ (command (edits [] keys) first_settings).0)
    × ((keypress 13 (presses keys (newline no_line) first_settings) first_settings).2
        ≡ (command (edits [] keys) first_settings).1)
unfolding are_typed
keypress-command_example = keypress-command keys no_line first_settings refl

read_ip-quad_example :
    read_ip 4 (all_shown (quad 128 174 38 207)) (10 ∷ 10 ∷ 10 ∷ 10 ∷ []) ≡ 128 ∷ 174 ∷ 38 ∷ 207 ∷ []
read_ip-quad_example =
    read_ip-quad 128 174 38 207 10 10 10 10 (omega arith) (omega arith) (omega arith) (omega arith)

abbrev start_bytes : List ℕ
start_bytes = 0x45 ∷ 0 ∷ 0 ∷ 36 ∷ 0 ∷ 1 ∷ 0 ∷ 0 ∷ 128 ∷ 17 ∷ []

abbrev end_bytes : List ℕ
end_bytes = 10 ∷ 0 ∷ 0 ∷ 1 ∷ 10 ∷ 10 ∷ 10 ∷ 10 ∷ []

ipchksum-filled_example :
    ipchksum (start_bytes ++ (half (ipchksum (start_bytes ++ (0 ∷ 0 ∷ end_bytes))) ++ end_bytes))
    ≡ 0
unfolding is_even are_bytes
ipchksum-filled_example = ipchksum-filled start_bytes end_bytes refl refl refl

abbrev first_netboot : Netboot
first_netboot = record {
  prom = 1 ∷ 2 ∷ 3 ∷ 4 ∷ 5 ∷ 6 ∷ [];
  ip = 10 ∷ 10 ∷ 10 ∷ 10 ∷ [];
  ip_pointer = 0 ∷ 16 ∷ 9 ∷ 0 ∷ [];
  server_mac = 0 ∷ 0 ∷ 0 ∷ 0 ∷ 0 ∷ 0 ∷ [];
  server_ip = 0 ∷ 0 ∷ 0 ∷ 0 ∷ [];
  got_server = false;
  got_ip = false;
  reset = false;
  id = 1;
  memory = λ a. 0;
  sent = [];
  started = none;
}

-- An ARP packet that asks for 10.10.10.10.
abbrev question : List ℕ
question =
    255 ∷ 255 ∷ 255 ∷ 255 ∷ 255 ∷ 255 ∷ 7 ∷ 7 ∷ 7 ∷ 7 ∷ 7 ∷ 7 ∷ 8 ∷ 6 ∷ 0 ∷ 1 ∷ 8 ∷ 0 ∷ 6 ∷ 4 ∷ 0
    ∷ 1 ∷ 7 ∷ 7 ∷ 7 ∷ 7 ∷ 7 ∷ 7 ∷ 10 ∷ 0 ∷ 0 ∷ 1 ∷ 0 ∷ 0 ∷ 0 ∷ 0 ∷ 0 ∷ 0 ∷ 10 ∷ 10 ∷ 10 ∷ 10 ∷ []

receive-Answers_example :
    (p : List ℕ) × (receive (arrived question) first_netboot
      ≡ record first_netboot { sent = p ∷ [] })
    × Answers (arrived question) (arrived p) first_netboot
unfolding ntohs field memcmp bytes
receive-Answers_example = receive-Answers (arrived question) first_netboot refl refl (refl, refl)

-- A packet that loads block 2, all of whose bytes are 0.
abbrev load_packet : List ℕ
load_packet =
    1 ∷ 2 ∷ 3 ∷ 4 ∷ 5 ∷ 6 ∷ 7 ∷ 7 ∷ 7 ∷ 7 ∷ 7 ∷ 7 ∷ 8 ∷ 0 ∷ 0x45 ∷ 0 ∷ 0 ∷ 36 ∷ 0 ∷ 1 ∷ 0 ∷ 0 ∷ 128
    ∷ 17 ∷ 0x1c ∷ 0xb4 ∷ 10 ∷ 0 ∷ 0 ∷ 1 ∷ 10 ∷ 10 ∷ 10 ∷ 10 ∷ 0x10 ∷ 0 ∷ 0x10 ∷ 0x92 ∷ 0 ∷ 12 ∷ 0
    ∷ 0 ∷ 0 ∷ 1 ∷ 0 ∷ 2 ∷ []

load_packet-IsForLoader : IsForLoader (arrived load_packet) first_netboot
unfolding are_bytes bytes ipchksum halves checksum_loop ntohs field
load_packet-IsForLoader = record {
  small = λ j. arrived-small load_packet j refl;
  is_ip = (refl, refl);
  to_us = refl;
  header_right = refl;
  is_udp = refl;
  to_port = refl;
}

first_netboot-IsNetboot : IsNetboot first_netboot
unfolding are_bytes
first_netboot-IsNetboot = record {
  prom_size = refl;
  ip_size = refl;
  pointer_size = refl;
  mac_size = refl;
  server_size = refl;
  pointer_bytes = refl;
  server_bytes = refl;
}

receive-IsLoaded_example :
    IsLoaded (arrived load_packet) first_netboot (receive (arrived load_packet) first_netboot)
unfolding ntohs field
receive-IsLoaded_example =
    receive-IsLoaded (arrived load_packet) first_netboot first_netboot-IsNetboot
      load_packet-IsForLoader refl
