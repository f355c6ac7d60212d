-- ===== src/Exit/Packet.antt =====
-- The addresses of an IPv4 packet in cmd/revquic-exit/main.go; AddrFrom4 of net/netip is a parameter.
use revquic.Prelude.{ℕ, ◌+◌, ◌/◌, Option, none, some, length, ltb, ◌==◌, ◌||◌, not, if◌then◌else◌}
use revquic.Proto.Datagram.{Bytes, byte_at}

module _ {A : Type 0} (addr_from4 : ℕ → ℕ → ℕ → ℕ → A) where
  -- The address at an offset of a packet that is long enough and of version 4.
  abbrev address_at : ℕ → Bytes → Option A
  address_at i pkt =
      if ltb (length pkt) 20 || not (byte_at pkt 0 / 16 == 4)
      then none
      else some (
          addr_from4 (byte_at pkt i) (byte_at pkt (i + 1)) (byte_at pkt (i + 2))
            (byte_at pkt (i + 3)))

  unfoldable pub ipv4_dst : Bytes → Option A
  ipv4_dst pkt = address_at 16 pkt

  unfoldable pub ipv4_src : Bytes → Option A
  ipv4_src pkt = address_at 12 pkt
