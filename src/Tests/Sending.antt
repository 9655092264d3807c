-- ===== src/Tests/Sending.antt =====
-- A connection that is accepted, one that is refused, and a region sent, in jni/sock.c.
use memdump.Base.{
  ◌≡◌, ◌⊎◌, inl, inr, refl, true, false, if◌then◌else◌, List, [], ◌∷◌, fault, arith, ◌-◌, ◌^◌,
  Bool-cases, ℕ, replicate, ◌==◌,
}
use memdump.Base.Int.{ℤ, pos, negsuc, eq_int}
use memdump.Mem.Read.{Stream}
use memdump.Sock.{
  Options, Sock, SockaddrIn, NetEvent, answered, Network, is_open_socket, open_socket, server_of,
  created, wrote, could_not_connect, send_pages, end_address,
}
use memdump.Sock.Laws.{
  Opens, no_socket, is_refused, Failed, is_connected, open_socket_lem, buffers, send_pages_endless,
}
use memdump.Tests.Dumper.{zeros}

-- One socket, 3. The server listens on port 80.
fresh :
    (h : List NetEvent)
    → eq_int (if is_open_socket (pos 3) h then negsuc 0 else pos 3) (negsuc 0) ≡ false
    → is_open_socket (if is_open_socket (pos 3) h then negsuc 0 else pos 3) h ≡ false
fresh h made = elim (Bool-cases (is_open_socket (pos 3) h)) [
  | inl taken ↦ absurd (ground (arith, made))
  | inr free ↦ rw (free, free) refl
]

abbrev one_socket : Network
one_socket = record {
  socket = λ h. if is_open_socket (pos 3) h then negsuc 0 else pos 3;
  connect = λ h fd to. if to.sin_port == 80 then pos 0 else negsuc 0;
  inet_addr = λ text. 16_777_343;
  htons = λ port. port;
  socket_fresh = λ h made. fresh h made;
}

abbrev options : ℤ → Options
options port = record { pid = pos 1; net = true; ip_addr = []; port = port }

abbrev closed_sock : Sock
closed_sock = record { fd = negsuc 0 }

-- The server does not listen on port 81.
open_socket_lem_example :
    let r = open_socket one_socket closed_sock (options (pos 81)) [] in
    ((no_socket one_socket [] ≡ true)
      × Failed closed_sock r
      × ((fd : ℤ) → is_open_socket fd r.2 ≡ is_open_socket fd []))
    ⊎ ((no_socket one_socket [] ≡ false)
        × (is_refused one_socket (options (pos 81)) [] ≡ true)
        × Failed closed_sock r
        × Opens (pos 3) [] r.2
        × ((to : SockaddrIn) → is_connected (pos 3) to r.2 ≡ is_connected (pos 3) to []))
    ⊎ ((no_socket one_socket [] ≡ false)
        × (is_refused one_socket (options (pos 81)) [] ≡ false)
        × (r.0 ≡ pos 0)
        × (r.1.fd ≡ pos 3)
        × Opens (pos 3) [] r.2
        × (is_connected (pos 3) (server_of one_socket (options (pos 81))) r.2 ≡ true))
open_socket_lem_example = open_socket_lem one_socket closed_sock (options (pos 81)) []

-- The socket stays open when the connection is refused.
refused_run : open_socket one_socket closed_sock (options (pos 81)) [] ≡ (
  negsuc 0,
  closed_sock,
  wrote could_not_connect
      ∷ answered (pos 3) (record { sin_addr = 16_777_343; sin_port = 81 }) (negsuc 0)
      ∷ created (pos 3)
      ∷ [],
)
unfolding open_socket server_of
refused_run = refl

accepted_run : open_socket one_socket closed_sock (options (pos 80)) [] ≡ (
  pos 0,
  record { fd = pos 3 },
  answered (pos 3) (record { sin_addr = 16_777_343; sin_port = 80 }) (pos 0) ∷ created (pos 3) ∷ [],
)
unfolding open_socket server_of
accepted_run = refl

-- A memory that cannot be read.
abbrev unreadable : Stream ℕ
unreadable = record zeros { fread = λ n file. (file, []) }

stale : buffers unreadable (replicate 4096 7) 4096 1 ≡ replicate 4096 7 ∷ []
stale = refl

-- The last page but one byte.
send_pages_endless_example :
    send_pages unreadable 1000
      (end_address (2 ^ 64 - 4096) (pos 4095))
      (2 ^ 64 - 4096)
      (pos 3)
      (replicate 4096 7)
      0
      []
    ≡ fault
send_pages_endless_example =
    send_pages_endless unreadable 1000 (2 ^ 64 - 4096) 4095 (pos 3) (replicate 4096 7) 0
      (omega arith) (omega arith) (omega arith)
