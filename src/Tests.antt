-- ===== src/Tests.antt =====
-- Runs of the models, and each theorem at an input where its conditions hold.
mod Queue
mod Tables
mod Groups
mod Jobs
mod Tuners
mod Packets
mod Readers
mod Demux
mod Events
mod Streams
