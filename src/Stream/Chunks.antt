-- ===== src/Stream/Chunks.antt =====
-- Collecting the frames of a stream, in one piece or in several.
use trading_monitoring_dashb.Base.{Option, none, some, List, [], ◌∷◌, ◌++◌, ◌≡◌, refl}
use trading_monitoring_dashb.Base.Text.{Text}
use trading_monitoring_dashb.Base.Dict.{Dict}
use trading_monitoring_dashb.Js.{Js}
use trading_monitoring_dashb.Stream.{Platform, Collected, collect_frame, and_then, collect_frames}

module _ (platform : Platform) (kbars : Dict Js) where
  and_then-append :
      (o : Option Collected) (fs gs : List Text)
      → ((c : Collected)
          → collect_frames platform kbars (fs ++ gs) c
            ≡ and_then platform kbars
                (collect_frames platform kbars fs c)
                (collect_frames platform kbars gs))
      → and_then platform kbars o (collect_frames platform kbars (fs ++ gs))
        ≡ and_then platform kbars
            (and_then platform kbars o (collect_frames platform kbars fs))
            (collect_frames platform kbars gs)
  and_then-append none fs gs h = refl
  and_then-append (some c) fs gs h = h c

  -- For any frames: collecting two runs of frames together is collecting the first and then the
  -- second, with an exception in the first ending both.
  pub collect_frames-append :
      (fs gs : List Text) (c : Collected)
      → collect_frames platform kbars (fs ++ gs) c
        ≡ and_then platform kbars
            (collect_frames platform kbars fs c)
            (collect_frames platform kbars gs)
  unfolding collect_frames
  collect_frames-append [] gs c = refl
  collect_frames-append (f ∷ fs) gs c =
      and_then-append (collect_frame platform kbars f c) fs gs (collect_frames-append fs gs)
