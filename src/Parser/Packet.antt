-- ===== src/Parser/Packet.antt =====
-- parser/gttpacket.h and parser/gttpacket.cpp: the packet, and `GTTPacket::build`.
use epyx.Base.{[], ◌∷◌, ◌++◌, ltb, if◌then◌else◌, length, Bytes, codes}
use epyx.Base.Dict.{Dict}
use epyx.Core.Text.{crlf, from_unsigned_long}

pub record GttPacket : Type 0 where
  pub protocol : Bytes
  pub method : Bytes
  pub headers : Dict Bytes Bytes
  pub body : Bytes

abbrev pub new_packet : GttPacket
new_packet = record { protocol = []; method = []; headers = []; body = [] }

-- The loop of `build` over the headers.
unfoldable pub build_headers : Dict Bytes Bytes → Bytes
build_headers [] = []
build_headers ((k, v) ∷ hs) = k ++ (b':' ∷ b' ' ∷ (v ++ (crlf ++ build_headers hs)))

abbrev pub content_length : Bytes
content_length = codes "content-length"

unfoldable pub build_length : Bytes → Bytes
build_length body =
    if ltb 0 (length body)
    then content_length ++ (b':' ∷ b' ' ∷ (from_unsigned_long (length body) ++ crlf))
    else []

-- `GTTPacket::build`.
unfoldable pub build : GttPacket → Bytes
unfolding build_headers build_length
build pkt =
    pkt.protocol
    ++ (b' '
        ∷ (pkt.method
            ++ (crlf
                ++ (build_headers pkt.headers ++ (build_length pkt.body ++ (crlf ++ pkt.body))))))
