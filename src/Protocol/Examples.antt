-- ===== src/Protocol/Examples.antt =====
-- The header of a negative length, from a machine of one byte order to one of the other.
use cardboard.Base.{◌≡◌, arith}
use cardboard.Base.Int.{negsuc}
use cardboard.Protocol.Header.{little, big, interpret_header, create_header_buffer, store, to_word}
use cardboard.Protocol.Header.Wire.{interpret-create_header}

interpret-create_header_example :
    (interpret_header big (create_header_buffer little (negsuc 6)) ≡ negsuc 6)
    × (create_header_buffer little (negsuc 6) ≡ store little (to_word (negsuc 6)))
interpret-create_header_example = interpret-create_header little big (negsuc 6) (omega arith)
