-- ===== src/Bindings/AfterBool.antt =====
-- The encoder of go/src/fidl/bindings/encoder.go at a position inside a byte, where a bool has been
-- written.
use fidl.Prelude.{◌+◌, ◌%◌, ◌<◌, ◌≡◌, arith, List, ◌∷◌}
use fidl.Prelude.Go.{ok}
use fidl.Bindings.Util.Laws.{align_eight}
use fidl.Bindings.State.{EncodingState}
use fidl.Bindings.Encoder.{Encoder, finish_writing_union_value}
use fidl.Bindings.Encoder.Valid.{over}

-- A union value that ends inside the first byte of its 8-byte field, as a bool does, is not moved past:
-- `FinishWritingUnionValue` returns with the position at the field's second byte.
pub union_end_after_bool :
    (e : Encoder) (s : EncodingState) (ss : List EncodingState)
    → s.offset % 8 ≡ 0
    → 0 < s.bit_offset
    → finish_writing_union_value (over e (s ∷ ss))
      ≡ ok tt (over e (record s { offset = s.offset + 1; bit_offset = 0 } ∷ ss))
unfolding finish_writing_union_value
union_end_after_bool e s ss o b = ground (arith, align_eight s.offset)
