-- ===== src/Static.antt =====
-- Static files in src/drogon_server.cpp: escapeRegex, resolveSafely and installStaticMount, with the
-- parts of std::filesystem::path that they use, as the C++ standard describes them for POSIX paths.
pub mod FilePath
pub mod Stretches
pub mod Resolve
pub mod Safety
pub mod Completeness
