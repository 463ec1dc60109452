-- ===== src/WebSocket/Frames.antt =====
-- A frame of the gateway goes out as the codec of frames writes it, under the mask.
use exasol_gateway_sdk.Errors.{Error}
use exasol_gateway_sdk.Base.{ℕ, ◌+◌, ◌^◌, ◌<◌, List, length, ◌≡◌, ok, err, ◌⊎◌}
use exasol_gateway_sdk.Base.State.{◌>>=◌, ◌>>◌}
use exasol_gateway_sdk.Base.Ensures.{Ensures}
use exasol_gateway_sdk.Frame.{Frame}
use exasol_gateway_sdk.Frame.Encode.{encode_frame}
use exasol_gateway_sdk.Frame.Layout.{wire}
use exasol_gateway_sdk.WebSocket.{WebSocketConnection, Platform}
use exasol_gateway_sdk.WebSocket.Masking.{frame_start}
use exasol_gateway_sdk.WebSocket.Masks.{client_header}
use exasol_gateway_sdk.WebSocket.Streams.{IsPlatform, IsStill}
use exasol_gateway_sdk.WebSocket.Carried.{IsCarried, IsLost}

module _ {W : Type 0} (os : Platform W) (outgoing : W → List ℕ) (law : IsPlatform os outgoing) where
  -- The codec's bytes of a frame are carried.
  pub record IsFrameSent (frame : Frame) (c c' : WebSocketConnection W) : Type 0 where
    pub bytes : List ℕ
    pub encoded : encode_frame frame ≡ ok bytes
    pub carried : IsCarried os outgoing law (frame_start 0x82 (length bytes)) bytes c c'

  -- It is not: the codec refuses the frame, with the same error, and nothing is sent; or the codec
  -- does not refuse it, and the transport fails.
  abbrev pub IsFrameRefused : Frame → WebSocketConnection W → Error → WebSocketConnection W → Type 0
  IsFrameRefused frame c e c' =
      (encode_frame frame ≡ err e) × IsStill os outgoing c c'
      ⊎ ((bytes : List ℕ) × (encode_frame frame ≡ ok bytes)
          × IsLost os outgoing law (length bytes) c e c')

  module _ (frame : Frame) (c : WebSocketConnection W) (none : frame.header.flags ≡ 0)
      (small : frame.header.message_type < 2 ^ 16) (fits : length frame.payload < 2 ^ 32) where
    laid : List ℕ
    laid =
        wire (client_header frame.header.message_type frame.header.request_id frame.payload) 0
          frame.payload

    begin_frame : WebSocketConnection W
    begin_frame = record c {
      web_socket_frame_buffer = frame_start 0x82 (24 + length frame.payload);
    }
