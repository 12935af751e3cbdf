-- ===== src/Offset/Tests.antt =====
-- Tests of images behind an offset, backhand/src/reader.rs.
use backhand.Common.{[], ◌∷◌, arith}
use backhand.Offset.{WithOffset, negsuc, current}
use backhand.Offset.View.{IsBehind, SeeksAlike, seek-view}

-- Two bytes before the image, which has three; one of them has been read.
abbrev wrapped : WithOffset
wrapped = record { io = record { image = 1 ∷ 2 ∷ 10 ∷ 11 ∷ 12 ∷ []; pos = 3 }; offset = 2 }

wrapped-IsBehind : IsBehind wrapped
wrapped-IsBehind = (omega arith, omega arith)

-- Two bytes back, which is before the image and in the file
seek-view_example : SeeksAlike (current (negsuc 1)) wrapped
seek-view_example = seek-view (current (negsuc 1)) wrapped wrapped-IsBehind tt
