-- ===== src/Wire.antt =====
-- What goes over a connection: big-endian cursors (proto/buffer.py) and frames (proto/frames.py).
pub mod Words
pub mod Buffer
pub mod Frames
pub mod Responses
pub mod Requests
