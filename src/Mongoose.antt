-- ===== src/Mongoose.antt =====
-- mongoose/src: the MongoDB adapter, of which the regular expressions are modelled.
pub mod Pattern
