-- ===== src/Datagram.antt =====
-- server/_datagram_enc.py: the UDP layer under QUIC, which seals packets and frames them.
pub mod Encryptor
pub mod Inbound
pub mod Packets
